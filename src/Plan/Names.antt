-- ===== src/Plan/Names.antt =====
-- The environments of a plan have the names that were asked for.
use mathlib.Core.Option.{some-injective}
use kubeforward.Base.{
  ℕ, zero, suc, ◌≡◌, refl, sym, ◌∙◌, ap, inl, inr, String, Option, none, some, List, [], ◌∷◌, All,
  Bool-cases, Option-cases, contains, string_eq, subst, arith,
}
use kubeforward.Base.Map.{lookup, has_key}
use kubeforward.Base.Run.{Run, returns, out_of_range, out_of_fuel, Ensures, Ensures-bind}
use kubeforward.Config.{Config, EnvironmentDefinition}
use kubeforward.Plan.Types.{ResolvedEnvironment, ResolvedPlan, PlanBuildError, PlanBuildResult}
use kubeforward.Plan.Resolve.{
  ResolveState, initial, visit, make_environment, finish_environment, resolve_environment_recursive,
  resolve_targets, build_targets, plan_result, build_resolved_plan, resolve_forward_definitions,
}
use kubeforward.Plan.Chain.Cache.{lookup-emplace_cases}

-- The cached environments have the names that they are cached under.
record CacheIsNamed (st : ResolveState) : Type 0 where
  entry : (name : String) (r : ResolvedEnvironment) → lookup name st.cache ≡ some r → r.name ≡ name

abbrev IsNamed : String → Option ResolvedEnvironment × ResolveState → Type 0
IsNamed name result =
    CacheIsNamed result.1 × ((r : ResolvedEnvironment) → result.0 ≡ some r → r.name ≡ name)

returned : {A : Type 0} (m : Run A) → Ensures (λ _. Unit {0}) m
returned (returns a) = tt
returned out_of_range = tt
returned out_of_fuel = tt

finish-IsNamed :
    (fuel : ℕ) (name : String) (config : Config) (env : EnvironmentDefinition)
    (parent : Option ResolvedEnvironment) (st : ResolveState)
    → CacheIsNamed st
    → Ensures (IsNamed name) (finish_environment fuel name config env parent st)
unfolding finish_environment make_environment
finish-IsNamed fuel name config env parent st c =
    Ensures-bind (λ _. Unit {0}) (IsNamed name) (resolve_forward_definitions fuel name config) _
      (returned (resolve_forward_definitions fuel name config))
      λ definitions _. (
        record {
          entry = λ other r h. elim (lookup-emplace_cases other name _ r st.cache h) [
            | inl (same, made) ↦ sym (ap (λ (e : ResolvedEnvironment). e.name) made) ∙ same
            | inr old ↦ c.entry other r old
          ];
        },
        λ r same. sym (ap (λ (e : ResolvedEnvironment). e.name) (some-injective _ r same)),
      )

resolve-IsNamed :
    (fuel : ℕ) (name : String) (config : Config) (st : ResolveState)
    → CacheIsNamed st
    → Ensures (IsNamed name) (resolve_environment_recursive fuel name config st)
unfolding resolve_environment_recursive
resolve-IsNamed zero name config st c = tt
resolve-IsNamed (suc fuel) name config st c = elim (Option-cases (lookup name st.cache)) [
  | inr (r, e) ↦
      rw (e, resolve_environment_recursive)
        (
          c,
          λ s same.
              subst (λ (x : ResolvedEnvironment). x.name ≡ name) (some-injective r s same)
                (c.entry name r e),
        )
  | inl e ↦ elim (Bool-cases (contains st.visiting name)) [
    | inl v ↦ rw (e, v, resolve_environment_recursive) (record { entry = c.entry }, λ r h. cc)
    | inr v ↦ elim (Option-cases (lookup name config.environments)) [
      | inl l ↦ rw (e, v, l, resolve_environment_recursive) (record { entry = c.entry }, λ r h. cc)
      | inr (env, l) ↦
          let st' : ResolveState = record st { visiting = visit name st.visiting } in
          elim (Option-cases env.extends) [
            | inl p ↦
                rw (e, v, l, p, resolve_environment_recursive)
                  (finish-IsNamed (suc fuel) name config env none st' (record { entry = c.entry }))
            | inr (parent, p) ↦
                rw (e, v, l, p, resolve_environment_recursive)
                  (Ensures-bind (IsNamed parent) (IsNamed name)
                    (resolve_environment_recursive fuel parent config st') _
                    (resolve-IsNamed fuel parent config st' (record { entry = c.entry }))
                    (λ r s. finish-IsNamed (suc fuel) name config env r.0 r.1 s.0))
          ]
    ]
  ]
]

abbrev pub HasName : String → List ResolvedEnvironment → Type 0
HasName name envs = All (λ (e : ResolvedEnvironment). e.name ≡ name) envs

resolve_targets-HasName :
    (fuel : ℕ) (config : Config) (name : String)
    → Ensures (λ r. HasName name r.0) (resolve_targets fuel (name ∷ []) config initial)
unfolding resolve_targets lookup
resolve_targets-HasName fuel config name =
    Ensures-bind (IsNamed name) _ (resolve_environment_recursive fuel name config initial) _
      (resolve-IsNamed fuel name config initial (record { entry = λ n r h. cc }))
      λ (resolved, st) (_, named). at_most_one resolved named
  where
    at_most_one :
        (o : Option ResolvedEnvironment)
        → ((r : ResolvedEnvironment) → o ≡ some r → r.name ≡ name)
        → HasName name (elim o [ some env ↦ env ∷ [] | none ↦ [] ])
    at_most_one none named = tt
    at_most_one (some r) named = (named r refl, tt)

build_targets-HasName :
    (fuel : ℕ) (config : Config) (config_path name : String)
    → Ensures
        (λ r. (plan : ResolvedPlan) → r.plan ≡ some plan → HasName name plan.environments)
        (build_targets fuel config config_path (name ∷ []))
unfolding build_targets
build_targets-HasName fuel config config_path name =
    Ensures-bind _ _ (resolve_targets fuel (name ∷ []) config initial) _
      (resolve_targets-HasName fuel config name)
      λ (environments, st) named. given st.errors environments named
  where
    given :
        (errors : List PlanBuildError) (environments : List ResolvedEnvironment)
        → HasName name environments
        → (plan : ResolvedPlan) → (plan_result config_path environments errors).plan ≡ some plan
        → HasName name plan.environments
    given [] environments named plan h =
        subst (λ (p : ResolvedPlan). HasName name p.environments) (some-injective _ plan h) named
    given (e ∷ errors) environments named plan h = cc

-- A plan that is given out for one environment has only environments of its name.
pub build_resolved_plan-HasName :
    (fuel : ℕ) (config : Config) (config_path name : String) (result : PlanBuildResult)
    (plan : ResolvedPlan)
    → build_resolved_plan fuel config config_path (some name) ≡ returns result
    → result.plan ≡ some plan
    → HasName name plan.environments
unfolding build_resolved_plan
build_resolved_plan-HasName fuel config config_path name result plan e h =
    elim (Bool-cases (has_key name config.environments)) [
      | inl k ↦ (rw (rw k at e) at (build_targets-HasName fuel config config_path name)) plan h
      | inr k ↦ ground arith
    ]
