-- ===== src/Plan/Settings/Laws.antt =====
-- Overriding settings, seen field by field.
use kubeforward.Base.{
  String, ◌≡◌, refl, Bool, true, false, Option, none, some, [], ◌∷◌, ◌==◌, string_eq, if◌then◌else◌,
}
use kubeforward.Base.Map.{Map, lookup, insert, lookup-insert}
use kubeforward.Plan.Settings.{prefer, merge_labels}

-- The last entry of the key, since a later assignment wins.
abbrev pub last_value : String → Map String → Option String
last_value j [] = none
last_value j ((k, v) ∷ m) = prefer (if k == j then some v else none) (last_value j m)

prefer_assoc {ℓ} : {A : Type ℓ} (a b c : Option A) → prefer (prefer a b) c ≡ prefer a (prefer b c)
prefer_assoc a b none = refl
prefer_assoc a b (some c) = refl

prefer_if :
    (b : Bool) (v : String) (a : Option String)
    → prefer a (if b then some v else none) ≡ (if b then some v else a)
prefer_if true v a = refl
prefer_if false v a = refl

-- A key of the merged labels has the value that the overriding labels assign to it last, if they
-- assign one, and else the value of the base labels.
pub lookup-merge_labels :
    (j : String) (base override : Map String)
    → lookup j (merge_labels base override) ≡ prefer (lookup j base) (last_value j override)
unfolding merge_labels
lookup-merge_labels j base [] = refl
lookup-merge_labels j base ((k, v) ∷ override) =
    rw (lookup-merge_labels j (insert k v base) override, lookup-insert j k v base)
      (rw (← prefer_if (k == j) v (lookup j base)) (prefer_assoc (lookup j base) _ _))
