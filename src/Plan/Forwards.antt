-- ===== src/Plan/Forwards.antt =====
-- src/runtime/resolved_plan.cpp: the forwards of an environment, once its settings are known.
pub mod Laws
use kubeforward.Base.{
  ℕ, suc, String, ◌<>◌, none, some, List, [], ◌∷◌, if◌then◌else◌, to_string, is_empty,
}
use kubeforward.Config.{TargetDefaults, ForwardDefinition, PortMapping}
use kubeforward.Plan.Types.{ResolvedForward, ResolvedEnvironment, PlanBuildError, add_error}
use kubeforward.Plan.Settings.{prefer}

abbrev pub resolved_namespace : ForwardDefinition → TargetDefaults → String
resolved_namespace source settings = elim source.resource.namespace_override [
  | some name ↦ name
  | none ↦ elim settings.namespace_name [ some name ↦ name | none ↦ "" ]
]

unfoldable pub resolve_ports : TargetDefaults → List PortMapping → List PortMapping
resolve_ports settings [] = []
resolve_ports settings (port ∷ ports) =
    record port { bind_address = prefer settings.bind_address port.bind_address }
    ∷ resolve_ports settings ports

-- The body of the loop of `ResolveForwards`, without its errors.
unfoldable pub resolve_forward : String → TargetDefaults → ForwardDefinition → ResolvedForward
unfolding resolve_ports
resolve_forward env_name settings source = record {
  environment = env_name;
  name = source.name;
  resource = source.resource;
  ports = resolve_ports settings source.ports;
  context = prefer settings.context source.resource.context;
  namespace_name = resolved_namespace source settings;
  detach = source.detach;
  restart_policy = source.restart_policy;
  health_check = source.health_check;
  env = source.env;
  annotations = source.annotations;
}

abbrev pub forward_context : String → ℕ → String
forward_context env_name i = "environments." <> env_name <> ".forwards[" <> to_string i <> "]"

-- The loop of `ResolveForwards` from index `i` on.
unfoldable pub resolve_forwards_from :
    ℕ
    → String
    → List ForwardDefinition
    → TargetDefaults
    → List PlanBuildError
    → List ResolvedForward × List PlanBuildError
unfolding add_error resolve_forward
resolve_forwards_from i env_name [] settings errors = ([], errors)
resolve_forwards_from i env_name (source ∷ sources) settings errors =
    let errors' =
      if is_empty (resolved_namespace source settings)
      then add_error errors (forward_context env_name i <> ".resource.namespace")
          "resolved namespace is empty (set resource.namespace, environment namespace, or defaults.namespace)"
      else errors in
    let rest = resolve_forwards_from (suc i) env_name sources settings errors' in
    (resolve_forward env_name settings source ∷ rest.0, rest.1)

unfoldable pub resolve_forwards :
    String
    → List ForwardDefinition
    → TargetDefaults
    → List PlanBuildError
    → List ResolvedForward × List PlanBuildError
unfolding resolve_forwards_from
resolve_forwards = resolve_forwards_from 0

-- The loop of `ValidateResolvedEnvironment` from index `i` on.
unfoldable pub validate_forwards_from :
    ℕ → String → List ResolvedForward → List PlanBuildError → List PlanBuildError
unfolding add_error
validate_forwards_from i env_name [] errors = errors
validate_forwards_from i env_name (forward ∷ forwards) errors =
    validate_forwards_from (suc i) env_name forwards (
      if forward.detach
      then errors
      else add_error errors (forward_context env_name i <> ".annotations.detach")
          "production environment requires detach=true for every forward")

unfoldable pub validate_resolved_environment :
    ResolvedEnvironment → List PlanBuildError → List PlanBuildError
unfolding validate_forwards_from
validate_resolved_environment env errors =
    if env.guards.allow_production
    then validate_forwards_from 0 env.name env.forwards errors
    else errors
