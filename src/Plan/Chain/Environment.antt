-- ===== src/Plan/Chain/Environment.antt =====
-- One environment of a plan: what `make_environment` returns, and when it reports no error.
use mathlib.Core.List.{append_assoc, append-nil}
use kubeforward.Base.{
  ◌≡◌, refl, sym, ap, ◌∙◌, ◌↔◌, inl, inr, String, true, false, List, [], ◌++◌, map, is_empty, All,
  append-eq-nil, Bool-cases,
}
use kubeforward.Config.{TargetDefaults, EnvironmentGuards, ForwardDefinition}
use kubeforward.Plan.Types.{ResolvedForward, ResolvedEnvironment, PlanBuildError}
use kubeforward.Plan.Forwards.{
  resolved_namespace, resolve_forward, resolve_forwards, validate_resolved_environment,
}
use kubeforward.Plan.Forwards.Laws.{
  resolve_forwards_from-map, resolve_forwards_from-append, resolve_forwards_from-eq-nil,
  validate_forwards_from-append, validate_forwards_from-eq-nil,
}
use kubeforward.Plan.Resolve.{make_environment}

validate_resolved_environment-append :
    (env : ResolvedEnvironment) (errors : List PlanBuildError)
    → validate_resolved_environment env errors ≡ errors ++ validate_resolved_environment env []
unfolding validate_resolved_environment
validate_resolved_environment-append env errors = elim (Bool-cases env.guards.allow_production) [
  | inl e ↦ rw e (validate_forwards_from-append 0 env.name env.forwards errors)
  | inr e ↦ rw e (sym (append-nil errors))
]

validate_resolved_environment-eq-nil :
    (env : ResolvedEnvironment)
    → (validate_resolved_environment env [] ≡ [])
      ↔ (env.guards.allow_production ≡ true → All (λ f. f.detach ≡ true) env.forwards)
unfolding validate_resolved_environment
validate_resolved_environment-eq-nil env = elim (Bool-cases env.guards.allow_production) [
  | inl e ↦
      let v = validate_forwards_from-eq-nil 0 env.name env.forwards in
      rw e (λ h _. v.0 h, λ h. v.1 (h refl))
  | inr e ↦ rw e (λ h p. cc, λ h. refl)
]

module _ (name : String) (settings : TargetDefaults) (guards : EnvironmentGuards)
    (definitions : List ForwardDefinition) where
  abbrev expected : ResolvedEnvironment
  expected = record {
    name = name;
    settings = settings;
    guards = guards;
    forwards = map (resolve_forward name settings) definitions;
  }

  pub make_environment-map :
      (errors : List PlanBuildError)
      → (make_environment name settings guards definitions errors).0 ≡ expected
  unfolding make_environment
  make_environment-map errors =
      ap
        (λ (fs : List ResolvedForward). record {
          name = name;
          settings = settings;
          guards = guards;
          forwards = fs;
        })
        (resolve_forwards_from-map name settings 0 definitions errors)

  make_environment-errors :
      (errors : List PlanBuildError)
      → (make_environment name settings guards definitions errors).1
        ≡ errors
          ++ ((resolve_forwards name definitions settings []).1
              ++ validate_resolved_environment expected [])
  unfolding make_environment resolve_forwards
  make_environment-errors errors =
      rw (resolve_forwards_from-map name settings 0 definitions errors) (
        validate_resolved_environment-append expected _
        ∙ rw (resolve_forwards_from-append name settings 0 definitions errors)
            (append_assoc errors _ _))

  pub make_environment-append :
      (errors : List PlanBuildError)
      → (make_environment name settings guards definitions errors).1
        ≡ errors ++ (make_environment name settings guards definitions []).1
  make_environment-append errors =
      make_environment-errors errors ∙ ap (◌++◌ errors) (sym (make_environment-errors []))

  -- An environment gives rise to no error exactly when each of its forwards has a namespace and,
  -- in production, is detached.
  pub make_environment-eq-nil : ((make_environment name settings guards definitions []).1 ≡ []) ↔ (
      All (λ s. is_empty (resolved_namespace s settings) ≡ false) definitions
      × (guards.allow_production ≡ true
          → All (λ f. f.detach ≡ true) (map (resolve_forward name settings) definitions)))
  unfolding resolve_forwards
  make_environment-eq-nil =
      let n = resolve_forwards_from-eq-nil name settings 0 definitions in
      let v = validate_resolved_environment-eq-nil expected in
      rw (make_environment-errors []) (
        (λ h. let p = (append-eq-nil _ _).0 h in (n.0 p.0, v.0 p.1)),
        (λ h. (append-eq-nil _ _).1 (n.1 h.0, v.1 h.1)),
      )
