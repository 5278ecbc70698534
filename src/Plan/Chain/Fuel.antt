-- ===== src/Plan/Chain/Fuel.antt =====
-- A chain is no longer than the config has environments, so their number is fuel enough.
use kubeforward.Base.{
  ℕ, suc, ◌≤◌, ◌<◌, ◌≡◌, subst, inl, inr, String, false, some, List, [], ◌∷◌, arith, length,
  contains, string_eq, Option-cases, if◌then◌else◌,
}
use kubeforward.Base.Map.{Map, lookup}
use kubeforward.Config.{Config, EnvironmentDefinition}
use kubeforward.Plan.Resolve.{visit}
use kubeforward.Plan.Chain.{Ancestry}
use kubeforward.Plan.Chain.Cache.{VisitsAbove, not_visited, visit-VisitsAbove}

-- How many entries have a key that is not among the names seen.
unseen : List String → Map EnvironmentDefinition → ℕ
unseen seen [] = 0
unseen seen ((k, _) ∷ m) = let rest = unseen seen m in if contains seen k then rest else suc rest

unseen-cons-le :
    (name : String) (seen : List String) (m : Map EnvironmentDefinition)
    → unseen (name ∷ seen) m ≤ unseen seen m
unfolding unseen
unseen-cons-le name seen [] = omega arith
unseen-cons-le name seen ((k, _) ∷ m) = ground (arith, unseen-cons-le name seen m)

unseen-cons-lt :
    (name : String) (env : EnvironmentDefinition) (seen : List String)
    (m : Map EnvironmentDefinition)
    → lookup name m ≡ some env
    → contains seen name ≡ false
    → unseen (name ∷ seen) m < unseen seen m
unfolding unseen lookup
unseen-cons-lt name env seen [] h fresh = cc
unseen-cons-lt name env seen ((k, e) ∷ m) h fresh =
    ground (arith, unseen-cons-lt name env seen m, unseen-cons-le name seen m)

unseen-le-length : (seen : List String) (m : Map EnvironmentDefinition) → unseen seen m ≤ length m
unfolding unseen
unseen-le-length seen [] = omega arith
unseen-le-length seen (_ ∷ m) = ground (arith, unseen-le-length seen m)

module _ (config : Config) where
  length-le-unseen :
      (envs : List EnvironmentDefinition) (name : String) (seen : List String)
      → Ancestry config envs (some name)
      → VisitsAbove config (length envs) seen
      → length envs ≤ unseen seen config.environments
  length-le-unseen [] name seen a v = absurd a
  length-le-unseen (env ∷ []) name seen a v = omega (
    arith,
    unseen-cons-lt name env seen config.environments a.0
        (not_visited config name (env ∷ []) seen a v),
  )
  length-le-unseen (env ∷ parent ∷ envs) name seen a v = elim (Option-cases env.extends) [
    | inl e ↦ absurd (subst (Ancestry config (parent ∷ envs)) e a.1)
    | inr (p, e) ↦ omega (
      arith,
      unseen-cons-lt name env seen config.environments a.0
          (not_visited config name (env ∷ parent ∷ envs) seen a v),
      length-le-unseen (parent ∷ envs) p (visit name seen)
          (subst (Ancestry config (parent ∷ envs)) e a.1)
          (visit-VisitsAbove config name env (parent ∷ envs) seen a v),
    )
  ]

  pub none_visited : (n : ℕ) → VisitsAbove config n []
  none_visited n = record { above = λ name h. cc }

  pub length-le-environments :
      (envs : List EnvironmentDefinition) (name : String)
      → Ancestry config envs (some name)
      → length envs ≤ length config.environments
  length-le-environments envs name a = omega (
    arith,
    length-le-unseen envs name [] a (none_visited (length envs)),
    unseen-le-length [] config.environments,
  )
