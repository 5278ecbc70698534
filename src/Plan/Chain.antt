-- ===== src/Plan/Chain.antt =====
-- What a plan should hold: the chain of environments that `extends` leads through, nearest first,
-- and the settings, guards and forwards that it stands for. No cache, no visiting set, no fuel.
pub mod Environment
pub mod Cache
pub mod Resolves
pub mod Fuel
use mathlib.Core.Option.{some-injective}
use kubeforward.Base.{
  ℕ, suc, ◌≤◌, ◌≡◌, refl, sym, subst, ◌∙◌, String, true, false, Option, none, some, List, [], ◌∷◌,
  map, arith, length, empty, string_eq,
}
use kubeforward.Base.Map.{lookup, has_key}
use kubeforward.Config.{
  Config, TargetDefaults, EnvironmentGuards, EnvironmentDefinition, ForwardDefinition, no_guards,
}
use kubeforward.Base.Run.{Run, returns}
use kubeforward.Plan.Types.{ResolvedEnvironment, PlanBuildError}
use kubeforward.Plan.Settings.{merge_target_defaults, merge_environment_guards}
use kubeforward.Plan.Forwards.{resolve_forward}
use kubeforward.Plan.Resolve.{resolve_forward_definitions, make_environment}

-- `envs` are the environment named by the option and its ancestors, up to one with no `extends`.
abbrev pub Ancestry : Config → List EnvironmentDefinition → Option String → Type 0
Ancestry config [] none = Unit
Ancestry config [] (some name) = ⊥
Ancestry config (env ∷ envs) none = ⊥
Ancestry config (env ∷ envs) (some name) =
    (lookup name config.environments ≡ some env) × Ancestry config envs env.extends

module _ (config : Config) where
  -- An environment's own settings override those of its parent; `defaults` come last.
  abbrev pub chain_settings : List EnvironmentDefinition → TargetDefaults
  chain_settings [] = config.defaults
  chain_settings (env ∷ envs) = merge_target_defaults (chain_settings envs) env.settings

  abbrev pub chain_guards : List EnvironmentDefinition → EnvironmentGuards
  chain_guards [] = no_guards
  chain_guards (env ∷ envs) = merge_environment_guards (chain_guards envs) env.guards

  -- The forwards of the nearest environment that has any.
  abbrev pub chain_forwards : List EnvironmentDefinition → List ForwardDefinition
  chain_forwards [] = []
  chain_forwards (env ∷ envs) = elim (empty env.forwards) [
    | true ↦ chain_forwards envs
    | false ↦ env.forwards
  ]

  abbrev pub chain_environment : String → List EnvironmentDefinition → ResolvedEnvironment
  chain_environment name envs = record {
    name = name;
    settings = chain_settings envs;
    guards = chain_guards envs;
    forwards = map (resolve_forward name (chain_settings envs)) (chain_forwards envs);
  }

  -- The errors that the environment itself gives rise to.
  abbrev pub chain_errors : String → List EnvironmentDefinition → List PlanBuildError
  chain_errors name envs =
      (make_environment name (chain_settings envs) (chain_guards envs) (chain_forwards envs) []).1

  -- Neither the environment nor an ancestor gives rise to an error.
  abbrev pub Clean : List EnvironmentDefinition → Option String → Type 0
  Clean [] name = Unit
  Clean (env ∷ envs) none = ⊥
  Clean (env ∷ envs) (some name) = (chain_errors name (env ∷ envs) ≡ []) × Clean envs env.extends

  pub Ancestry-unique :
      (es fs : List EnvironmentDefinition) (o : Option String)
      → Ancestry config es o
      → Ancestry config fs o
      → es ≡ fs
  Ancestry-unique [] [] o a b = refl
  Ancestry-unique [] (f ∷ fs) none a b = absurd b
  Ancestry-unique [] (f ∷ fs) (some n) a b = absurd a
  Ancestry-unique (e ∷ es) [] none a b = absurd a
  Ancestry-unique (e ∷ es) [] (some n) a b = absurd b
  Ancestry-unique (e ∷ es) (f ∷ fs) none a b = absurd a
  Ancestry-unique (e ∷ es) (f ∷ fs) (some n) (la, a) (lb, b) =
      let same : f ≡ e = some-injective f e (sym lb ∙ la) in
      let rest : es ≡ fs =
        Ancestry-unique es fs e.extends a (subst (λ g. Ancestry config fs g.extends) same b) in
      cc

  pub has_key-Ancestry :
      (envs : List EnvironmentDefinition) (name : String)
      → Ancestry config envs (some name)
      → has_key name config.environments ≡ true
  has_key-Ancestry [] name a = absurd a
  has_key-Ancestry (env ∷ envs) name a = rw (a.0, has_key)

  -- With fuel for the chain, the forwards are those of the nearest environment that has any.
  pub resolve_forward_definitions-Ancestry :
      (envs : List EnvironmentDefinition) (fuel : ℕ) (name : String)
      → length envs ≤ fuel
      → Ancestry config envs (some name)
      → resolve_forward_definitions fuel name config ≡ returns (chain_forwards envs)
  unfolding resolve_forward_definitions
  resolve_forward_definitions-Ancestry [] fuel name h a = absurd a
  resolve_forward_definitions-Ancestry (env ∷ envs) ℕ.zero name h a = absurd (omega arith)
  resolve_forward_definitions-Ancestry (env ∷ envs) (suc fuel) name h (l, a) =
      rw (l, resolve_forward_definitions)
        (own env.forwards env.extends envs a (omega arith) (λ p b. has_key-Ancestry envs p b)
          (resolve_forward_definitions-Ancestry envs fuel))
    where
      own :
          (forwards : List ForwardDefinition) (parent : Option String)
          (rest : List EnvironmentDefinition)
          → Ancestry config rest parent
          → length rest ≤ fuel
          → ((p : String) → Ancestry config rest (some p) → has_key p config.environments ≡ true)
          → ((p : String)
              → length rest ≤ fuel
              → Ancestry config rest (some p)
              → resolve_forward_definitions fuel p config ≡ returns (chain_forwards rest))
          → ◌≡◌ {A = Run (List ForwardDefinition)}
              (elim (empty forwards) [
                | false ↦ returns forwards
                | true ↦ elim parent [
                  | none ↦ returns []
                  | some p ↦ elim (has_key p config.environments) [
                    | true ↦ resolve_forward_definitions fuel p config
                    | false ↦ returns []
                  ]
                ]
              ])
              (returns (elim (empty forwards) [ true ↦ chain_forwards rest | false ↦ forwards ]))
      own (f ∷ fs) parent rest a k has ih = refl
      own [] none [] a k has ih = refl
      own [] none (e ∷ es) a k has ih = absurd a
      own [] (some p) rest a k has ih = rw (has p a) (ih p k a)
