-- ===== src/Loader/Extends/Exact.antt =====
-- `ValidateEnvironmentExtends` reports an error exactly when some environment has no chain that ends.
use mathlib.Core.Option.{some-injective}
use kubeforward.Base.{
  ℕ, ◌≤◌, ◌≡◌, ◌≢◌, refl, sym, ap, subst, ◌∙◌, ◌↔◌, inl, inr, String, false, some, List, [], ◌∷◌,
  arith, length, ◌==◌, string_eq, Bool-cases, Option-cases, append-eq-nil, ==_iff, All, All-map,
}
use kubeforward.Base.Map.{Map, lookup, keys, keys-has_key}
use kubeforward.Base.Run.{Run, returns}
use kubeforward.Config.{Config, EnvironmentDefinition}
use kubeforward.Loader.Errors.{ConfigLoadError}
use kubeforward.Loader.Extends.{
  VisitState, Walk, state_of, parent_to_visit, check_parent, check_parents,
  validate_environment_extends,
}
use kubeforward.Loader.Extends.Marks.{left-le-length, ParentsKnown}
use kubeforward.Loader.Extends.Walks.{visit_all-VisitsAll}
use kubeforward.Plan.Chain.{Ancestry, Ancestry-unique, has_key-Ancestry}
use kubeforward.Plan.Correct.{HasChain}

-- The keys of a `std::map` are distinct: each entry is the one that is found under its key.
pub record IsMap (m : Map EnvironmentDefinition) : Type 0 where
  pub found : All (λ (e : String × EnvironmentDefinition). lookup e.0 m ≡ some e.1) m

module _ (config : Config) where
  abbrev E : Map EnvironmentDefinition
  E = config.environments

  -- A parent, if there is one, is another environment of the config.
  abbrev ParentAccepted : String → EnvironmentDefinition → Type 0
  ParentAccepted name env =
      (parent : String) → env.extends ≡ some parent → parent_to_visit E name env ≡ some parent

  check_parent_sound :
      (name : String) (env : EnvironmentDefinition)
      → (check_parent E name env).errors ≡ []
      → ParentAccepted name env
  unfolding check_parent
  check_parent_sound name env h parent e = let h' = rw e at h in rw e (ground arith)

  check_parent-quiet :
      (name : String) (env : EnvironmentDefinition)
      → lookup name E ≡ some env
      → HasChain config name
      → (check_parent E name env).errors ≡ []
  unfolding check_parent
  check_parent-quiet name env found ([], a) = absurd a
  check_parent-quiet name env found (f ∷ envs, a) = elim (Option-cases env.extends) [
    | inl e ↦ rw e
    | inr (parent, e) ↦
        let same : f ≡ env = some-injective f env (sym a.0 ∙ found) in
        let b : Ancestry config envs (some parent) =
          subst (Ancestry config envs) (ap (λ (g : EnvironmentDefinition). g.extends) same ∙ e)
            a.1 in
        rw (e, other parent b, has_key-Ancestry config envs parent b)
  ]
    where
      other : (parent : String) → Ancestry config envs (some parent) → (parent == name) ≡ false
      other parent b = elim (Bool-cases (parent == name)) [
        | inr e ↦ e
        | inl e ↦
            let c : Ancestry config envs (some name) =
              subst (λ n. Ancestry config envs (some n)) ((==_iff parent name).0 e) b in
            absurd
              (omega (arith, ap length (Ancestry-unique config envs (f ∷ envs) (some name) c a)))
      ]

  check_parents_sound :
      (entries : Map EnvironmentDefinition)
      → (check_parents E entries).errors ≡ []
      → (name : String) (env : EnvironmentDefinition) → lookup name entries ≡ some env
      → ParentAccepted name env
  unfolding check_parents lookup
  check_parents_sound [] h name env found = cc
  check_parents_sound ((k, f) ∷ entries) h name env found =
      let (own, rest) = (append-eq-nil (check_parent E k f).errors _).0 h in
      elim (Bool-cases (k == name)) [
        | inl e ↦
            let same : f ≡ env = some-injective f env (rw e at found) in
            subst (λ n. ParentAccepted n env) ((==_iff k name).0 e)
              (subst (ParentAccepted k) same (check_parent_sound k f own))
        | inr e ↦ check_parents_sound entries rest name env (rw e at found)
      ]

  check_parents-quiet :
      (entries : Map EnvironmentDefinition)
      → All (λ (e : String × EnvironmentDefinition). lookup e.0 E ≡ some e.1) entries
      → All (HasChain config) (keys entries)
      → (check_parents E entries).errors ≡ []
  unfolding check_parents
  check_parents-quiet [] found chains = refl
  check_parents-quiet ((k, f) ∷ entries) found chains =
      (append-eq-nil (check_parent E k f).errors _).1
        (check_parent-quiet k f found.0 chains.0, check_parents-quiet entries found.1 chains.1)

  abbrev start : Walk
  start = record { state = []; stack = []; errors = (check_parents E E).errors }

  pub record Checks (run : Run (List ConfigLoadError)) : Type 0 where
    pub errors : List ConfigLoadError
    pub ends : run ≡ returns errors
    pub sound : errors ≡ [] → All (HasChain config) (keys config.environments)
    pub quiet :
        IsMap config.environments → All (HasChain config) (keys config.environments) → errors ≡ []

  pub validate_environment_extends-Checks :
      (fuel : ℕ)
      → length config.environments ≤ fuel
      → Checks (validate_environment_extends fuel config)
  unfolding validate_environment_extends lookup
  validate_environment_extends-Checks fuel enough =
      let all =
        visit_all-VisitsAll config fuel (keys E) start (keys-has_key E) (λ name v. cc)
          (omega (arith, left-le-length [] E)) in
      record {
        errors = all.after.errors;
        ends = rw all.ends;
        sound = λ h.
            let p : ParentsKnown config = record {
              parent = λ name env parent found e.
                  check_parents_sound E (all.kept h) name env found parent e;
            } in
            let known = all.sound p (record { chain = λ name v. cc }) h in
            All-map _ (keys E)
              (λ name r.
                known.chain name (settled (state_of name all.after.state) r (all.idle name)))
              all.reached;
        quiet = λ m chains. all.quiet chains ∙ check_parents-quiet E m.found chains;
      }
    where
      settled :
          (s : VisitState)
          → s ≢ VisitState.unvisited
          → s ≢ VisitState.visiting
          → s ≡ VisitState.visited
      settled VisitState.unvisited a b = absurd (a refl)
      settled VisitState.visiting a b = absurd (b refl)
      settled VisitState.visited a b = refl

  -- With fuel for the environments, and distinct keys, the check of `extends` ends, and it finds no
  -- error if and only if every environment's chain of parents ends.
  pub validate_environment_extends_iff :
      (fuel : ℕ)
      → length config.environments ≤ fuel
      → IsMap config.environments
      → (errors : List ConfigLoadError) × (validate_environment_extends fuel config
          ≡ returns errors)
        × ((errors ≡ []) ↔ All (HasChain config) (keys config.environments))
  validate_environment_extends_iff fuel enough m =
      let checks = validate_environment_extends-Checks fuel enough in
      (checks.errors, checks.ends, (checks.sound, checks.quiet m))
