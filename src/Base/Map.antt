-- ===== src/Base/Map.antt =====
-- `std::map<std::string, V>`: the entries in the order of their keys.
use Prim.Native.Nat.{Ordering}
use Prim.Native.String.{String, compare}
use mathlib.Core.Path.{◌≡◌, refl, ap}
use mathlib.Core.Logic.{◌≢◌}
use mathlib.Core.Bool.{Bool, true, false}
use mathlib.Core.List.{List, [], ◌∷◌}
use mathlib.Core.Option.{Option, none, some}
use native.Mathlib.Omega.{arith}
use text.Mathlib.TextEquality.{path_by_compare}
use text.Mathlib.TextPositions.{compare_refl}
use kubeforward.Base.Lists.{All, All-map}
use kubeforward.Base.Equality.{◌==◌, string_eq, if◌then◌else◌}

abbrev pub Map {ℓ} : Type ℓ → Type ℓ
Map V = List (String × V)

abbrev pub keys {ℓ} : {V : Type ℓ} → Map V → List String
keys [] = []
keys ((k, v) ∷ m) = k ∷ keys m

ne_of_gt : (k j : String) → compare k j ≡ Ordering.gt → k ≢ j
ne_of_gt k j h e = cc (compare_refl k, ap (compare k) e, h)

module _ {ℓ} {V : Type ℓ} where
  -- `m.find(k)`
  unfoldable pub lookup : String → Map V → Option V
  lookup k [] = none
  lookup k ((j, v) ∷ m) = if j == k then some v else lookup k m

  -- `m[k] = v`
  unfoldable pub insert : String → V → Map V → Map V
  insert k v [] = (k, v) ∷ []
  insert k v ((j, w) ∷ m) =
      let rest = insert k v m in
      elim (compare k j) [
        | Ordering.lt ↦ (k, v) ∷ (j, w) ∷ m
        | Ordering.eq ↦ (j, v) ∷ m
        | Ordering.gt ↦ (j, w) ∷ rest
      ]

  -- `m.count(k) != 0`
  abbrev pub has_key : String → Map V → Bool
  has_key k m = elim (lookup k m) [ none ↦ false | some v ↦ true ]

  -- `m.emplace(k, v)`: an entry that is there stays.
  unfoldable pub emplace : String → V → Map V → Map V
  emplace k v m = elim (lookup k m) [ none ↦ insert k v m | some w ↦ m ]

  pub lookup-insert :
      (j k : String) (v : V) (m : Map V)
      → lookup j (insert k v m) ≡ (if k == j then some v else lookup j m)
  unfolding lookup insert
  lookup-insert j k v [] = refl
  lookup-insert j k v ((i, w) ∷ m) =
      ground (arith, path_by_compare k i, ne_of_gt k i, lookup-insert j k v m)

  pub lookup-emplace :
      (j k : String) (v : V) (m : Map V)
      → lookup k m ≡ none
      → lookup j (emplace k v m) ≡ (if k == j then some v else lookup j m)
  unfolding emplace
  lookup-emplace j k v m h = rw (h, emplace) (lookup-insert j k v m)

  -- Every value of the map satisfies `P`.
  abbrev pub Values {κ} : (V → Type κ) → Map V → Type κ
  Values P m = All (λ (e : String × V). P e.1) m

  Values-insert {κ} :
      (P : V → Type κ) (k : String) (v : V) (m : Map V) → P v → Values P m → Values P (insert k v m)
  unfolding insert
  Values-insert P k v [] p h = (p, tt)
  Values-insert P k v ((j, w) ∷ m) p h = by_order (compare k j) (Values-insert P k v m p h.1)
    where
      by_order :
          (o : Ordering)
          → Values P (insert k v m)
          → Values P (elim o [
            | Ordering.lt ↦ (k, v) ∷ (j, w) ∷ m
            | Ordering.eq ↦ (j, v) ∷ m
            | Ordering.gt ↦ (j, w) ∷ insert k v m
          ])
      by_order Ordering.lt rest = (p, h)
      by_order Ordering.eq rest = (p, h.1)
      by_order Ordering.gt rest = (h.0, rest)

  pub Values-emplace {κ} :
      (P : V → Type κ) (k : String) (v : V) (m : Map V)
      → P v
      → Values P m
      → Values P (emplace k v m)
  unfolding emplace
  Values-emplace P k v m p h = by_entry (lookup k m)
    where
      by_entry : (o : Option V) → Values P (elim o [ none ↦ insert k v m | some w ↦ m ])
      by_entry none = Values-insert P k v m p h
      by_entry (some w) = h

  pub has_key-lookup :
      (k : String) (m : Map V) → has_key k m ≡ true → (v : V) × (lookup k m ≡ some v)
  has_key-lookup k m h = given (lookup k m) h
    where
      given :
          (o : Option V)
          → ◌≡◌ {A = Bool} (elim o [ none ↦ false | some v ↦ true ]) true
          → (v : V) × (o ≡ some v)
      given none e = cc
      given (some v) e = (v, refl)

  has_key_cons :
      (j k : String) (v : V) (m : Map V) → has_key j m ≡ true → has_key j ((k, v) ∷ m) ≡ true
  unfolding lookup
  has_key_cons j k v m h = ground arith

  pub has_key_tail :
      (j k : String) (v : V) (m : Map V)
      → (k == j) ≡ false
      → has_key j ((k, v) ∷ m) ≡ true
      → has_key j m ≡ true
  unfolding lookup
  has_key_tail j k v m e h = ground arith

  has_key_self : (k : String) (v : V) (m : Map V) → has_key k ((k, v) ∷ m) ≡ true
  unfolding lookup
  has_key_self k v m = ground arith

  pub keys-has_key : (m : Map V) → All (λ k. has_key k m ≡ true) (keys m)
  keys-has_key [] = tt
  keys-has_key ((k, v) ∷ m) =
      (has_key_self k v m, All-map _ (keys m) (λ j h. has_key_cons j k v m h) (keys-has_key m))
