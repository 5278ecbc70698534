-- ===== src/Plan/Safety.antt =====
-- What holds of every plan that is given out, whatever the config: cyclic, dangling or sound.
use mathlib.Core.Option.{some-injective}
use kubeforward.Base.{
  ℕ, zero, suc, ◌≡◌, refl, sym, ◌∙◌, inl, inr, String, true, false, Option, none, some, List, [],
  ◌∷◌, map, arith, is_empty, All, append-eq-nil, Bool-cases, Option-cases, contains, string_eq,
  subst,
}
use kubeforward.Base.Map.{lookup, keys, has_key}
use kubeforward.Config.{
  Config, EnvironmentDefinition, TargetDefaults, EnvironmentGuards, ForwardDefinition,
}
use kubeforward.Base.Run.{Run, returns, out_of_range, out_of_fuel, Ensures, Ensures-bind}
use kubeforward.Plan.Types.{
  ResolvedEnvironment, ResolvedPlan, PlanBuildError, PlanBuildResult, add_error,
}
use kubeforward.Plan.Forwards.{resolve_forward, resolved_namespace}
use kubeforward.Plan.Resolve.{
  ResolveState, initial, visit, make_environment, finish_environment, resolve_environment_recursive,
  resolve_targets, build_targets, plan_result, build_resolved_plan, resolve_forward_definitions,
}
use kubeforward.Plan.Chain.Environment.{
  make_environment-map, make_environment-append, make_environment-eq-nil,
}
use kubeforward.Plan.Chain.Cache.{lookup-emplace_cases}

-- Every forward has a namespace, and in production every forward is detached.
pub record IsSafe (env : ResolvedEnvironment) : Type 0 where
  pub namespaced : All (λ f. is_empty f.namespace_name ≡ false) env.forwards
  pub detached : env.guards.allow_production ≡ true → All (λ f. f.detach ≡ true) env.forwards

-- While no error has been reported, the cached environments are safe.
record CacheIsSafe (st : ResolveState) : Type 0 where
  entry :
      (name : String) (r : ResolvedEnvironment)
      → lookup name st.cache ≡ some r
      → st.errors ≡ []
      → IsSafe r

-- The errors that were there are still there, the cache stays safe, and so is the result.
record Steps (before : ResolveState) (result : Option ResolvedEnvironment × ResolveState)
    : Type 0 where
  kept : result.1.errors ≡ [] → before.errors ≡ []
  cache : CacheIsSafe result.1
  safe : (r : ResolvedEnvironment) → result.0 ≡ some r → result.1.errors ≡ [] → IsSafe r

namespaced-map :
    (name : String) (settings : TargetDefaults) (sources : List ForwardDefinition)
    → All (λ s. is_empty (resolved_namespace s settings) ≡ false) sources
    → All (λ f. is_empty f.namespace_name ≡ false) (map (resolve_forward name settings) sources)
unfolding resolve_forward
namespaced-map name settings [] h = tt
namespaced-map name settings (s ∷ sources) h = (h.0, namespaced-map name settings sources h.1)

module _ (name : String) (settings : TargetDefaults) (guards : EnvironmentGuards)
    (definitions : List ForwardDefinition) (errors : List PlanBuildError) where
  abbrev made : ResolvedEnvironment × List PlanBuildError
  made = make_environment name settings guards definitions errors

  made_kept : made.1 ≡ [] → errors ≡ []
  made_kept h =
      ((append-eq-nil errors _).0
        (sym (make_environment-append name settings guards definitions errors) ∙ h)).0

  made-IsSafe : made.1 ≡ [] → IsSafe made.0
  made-IsSafe h =
      let own =
        ((append-eq-nil errors _).0
          (sym (make_environment-append name settings guards definitions errors) ∙ h)).1 in
      let (namespaced, detached) =
        (make_environment-eq-nil name settings guards definitions).0 own in
      subst IsSafe (sym (make_environment-map name settings guards definitions errors)) (record {
        namespaced = namespaced-map name settings definitions namespaced;
        detached = detached;
      })

finish-Steps :
    (fuel : ℕ) (name : String) (config : Config) (env : EnvironmentDefinition)
    (parent : Option ResolvedEnvironment) (before st : ResolveState)
    → CacheIsSafe st
    → (st.errors ≡ [] → before.errors ≡ [])
    → Ensures (Steps before) (finish_environment fuel name config env parent st)
unfolding finish_environment
finish-Steps fuel name config env parent before st c k =
    Ensures-bind (λ _. Unit {0}) (Steps before) (resolve_forward_definitions fuel name config) _
      (anything (resolve_forward_definitions fuel name config))
      λ definitions _. record {
        kept = λ h. k (made_kept name _ _ definitions st.errors h);
        cache = record {
          entry = λ other r h e. elim (lookup-emplace_cases other name _ r st.cache h) [
            | inl (_, same) ↦ subst IsSafe same (made-IsSafe name _ _ definitions st.errors e)
            | inr old ↦ c.entry other r old (made_kept name _ _ definitions st.errors e)
          ];
        };
        safe = λ r same e.
            subst IsSafe (some-injective _ r same) (made-IsSafe name _ _ definitions st.errors e);
      }
  where
    anything : (m : Run (List ForwardDefinition)) → Ensures (λ _. Unit {0}) m
    anything (returns a) = tt
    anything out_of_range = tt
    anything out_of_fuel = tt

failed-Steps :
    (st : ResolveState) (context message : String)
    → CacheIsSafe st
    → Steps st (none, record st { errors = add_error st.errors context message })
unfolding add_error
failed-Steps st context message c = record {
  kept = λ h. ((append-eq-nil st.errors _).0 h).0;
  cache = record { entry = λ n r l h. c.entry n r l ((append-eq-nil st.errors _).0 h).0 };
  safe = λ r h. cc;
}

resolve-Steps :
    (fuel : ℕ) (name : String) (config : Config) (st : ResolveState)
    → CacheIsSafe st
    → Ensures (Steps st) (resolve_environment_recursive fuel name config st)
unfolding resolve_environment_recursive
resolve-Steps zero name config st c = tt
resolve-Steps (suc fuel) name config st c = elim (Option-cases (lookup name st.cache)) [
  | inr (r, e) ↦
      rw (e, resolve_environment_recursive)
        (record {
          kept = λ h. h;
          cache = c;
          safe = λ s same h. subst IsSafe (some-injective r s same) (c.entry name r e h);
        })
  | inl e ↦ elim (Bool-cases (contains st.visiting name)) [
    | inl v ↦ rw (e, v, resolve_environment_recursive) (failed-Steps st _ _ c)
    | inr v ↦ elim (Option-cases (lookup name config.environments)) [
      | inl l ↦ rw (e, v, l, resolve_environment_recursive) (failed-Steps st _ _ c)
      | inr (env, l) ↦
          let st' : ResolveState = record st { visiting = visit name st.visiting } in
          elim (Option-cases env.extends) [
            | inl p ↦
                rw (e, v, l, p, resolve_environment_recursive)
                  (finish-Steps (suc fuel) name config env none st st' (record { entry = c.entry })
                    (λ h. h))
            | inr (parent, p) ↦
                rw (e, v, l, p, resolve_environment_recursive)
                  (Ensures-bind (Steps st') (Steps st)
                    (resolve_environment_recursive fuel parent config st') _
                    (resolve-Steps fuel parent config st' (record { entry = c.entry }))
                    (λ r s. finish-Steps (suc fuel) name config env r.0 st r.1 s.cache s.kept))
          ]
    ]
  ]
]

resolve_targets-IsSafe :
    (fuel : ℕ) (targets : List String) (config : Config) (st : ResolveState)
    → CacheIsSafe st
    → Ensures
        (λ r. (r.1.errors ≡ [] → st.errors ≡ []) × (r.1.errors ≡ [] → All IsSafe r.0))
        (resolve_targets fuel targets config st)
unfolding resolve_targets
resolve_targets-IsSafe fuel [] config st c = (λ h. h, λ h. tt)
resolve_targets-IsSafe fuel (target ∷ targets) config st c =
    Ensures-bind (Steps st) _ (resolve_environment_recursive fuel target config st) _
      (resolve-Steps fuel target config st c)
      λ (resolved, st') s.
        Ensures-bind _ _ (resolve_targets fuel targets config st') _
          (resolve_targets-IsSafe fuel targets config st' s.cache)
          λ (rest, st'') (kept, safe). (
            λ h. s.kept (kept h),
            λ h. with_head resolved rest (λ r e. s.safe r e (kept h)) (safe h),
          )
  where
    with_head :
        (o : Option ResolvedEnvironment) (rest : List ResolvedEnvironment)
        → ((r : ResolvedEnvironment) → o ≡ some r → IsSafe r)
        → All IsSafe rest
        → All IsSafe (elim o [ some env ↦ env ∷ rest | none ↦ rest ])
    with_head none rest h k = k
    with_head (some r) rest h k = (h r refl, k)

build_targets-IsSafe :
    (fuel : ℕ) (config : Config) (config_path : String) (targets : List String)
    → Ensures
        (λ r. (plan : ResolvedPlan) → r.plan ≡ some plan → All IsSafe plan.environments)
        (build_targets fuel config config_path targets)
unfolding build_targets lookup
build_targets-IsSafe fuel config config_path targets =
    Ensures-bind _ _ (resolve_targets fuel targets config initial) _
      (resolve_targets-IsSafe fuel targets config initial (record { entry = λ n r h. cc }))
      λ (environments, st) (kept, safe). given st.errors environments safe
  where
    given :
        (errors : List PlanBuildError) (environments : List ResolvedEnvironment)
        → (errors ≡ [] → All IsSafe environments)
        → (plan : ResolvedPlan) → (plan_result config_path environments errors).plan ≡ some plan
        → All IsSafe plan.environments
    given [] environments safe plan h =
        subst (λ (p : ResolvedPlan). All IsSafe p.environments) (some-injective _ plan h)
          (safe refl)
    given (e ∷ errors) environments safe plan h = cc

-- Whatever the config, the filter and the fuel, if the call returns and gives a plan, this holds only
-- environments in which every forward has a namespace and, where production is allowed, every forward is detached.
pub build_resolved_plan-IsSafe :
    (fuel : ℕ) (config : Config) (config_path : String) (env_filter : Option String)
    (result : PlanBuildResult) (plan : ResolvedPlan)
    → build_resolved_plan fuel config config_path env_filter ≡ returns result
    → result.plan ≡ some plan
    → All IsSafe plan.environments
unfolding build_resolved_plan
build_resolved_plan-IsSafe fuel config config_path none result plan e h =
    (rw e at (build_targets-IsSafe fuel config config_path (keys config.environments))) plan h
build_resolved_plan-IsSafe fuel config config_path (some env_filter) result plan e h =
    elim (Bool-cases (has_key env_filter config.environments)) [
      | inl k ↦
          (rw (rw k at e) at (build_targets-IsSafe fuel config config_path (env_filter ∷ []))) plan
            h
      | inr k ↦ ground arith
    ]
