-- ===== src/Plan/Types.antt =====
-- include/kubeforward/runtime/resolved_plan.h, and how a call of the plan builder ends.
use kubeforward.Base.{String, Bool, false, Option, none, some, List, [], ◌∷◌, ◌++◌, empty}
use kubeforward.Base.Map.{Map}
use kubeforward.Config.{
  TargetDefaults, EnvironmentGuards, ResourceSelector, PortMapping, RestartPolicy, HealthCheck,
}

pub record ResolvedForward : Type 0 where
  pub environment : String
  pub name : String
  pub resource : ResourceSelector
  pub ports : List PortMapping
  pub context : Option String
  pub namespace_name : String
  pub detach : Bool
  pub restart_policy : RestartPolicy
  pub health_check : Option HealthCheck
  pub env : Map String
  pub annotations : Map String

pub record ResolvedEnvironment : Type 0 where
  pub name : String
  pub settings : TargetDefaults
  pub guards : EnvironmentGuards
  pub forwards : List ResolvedForward

pub record ResolvedPlan : Type 0 where
  pub config_path : String
  pub environments : List ResolvedEnvironment

pub record PlanBuildError : Type 0 where
  pub context : String
  pub message : String

pub record PlanBuildResult : Type 0 where
  pub plan : Option ResolvedPlan
  pub errors : List PlanBuildError

-- `PlanBuildResult::ok`
abbrev pub is_ok : PlanBuildResult → Bool
is_ok r = elim r.plan [ none ↦ false | some p ↦ empty r.errors ]

unfoldable pub add_error : List PlanBuildError → String → String → List PlanBuildError
add_error errors context message = errors ++ (record { context = context; message = message } ∷ [])
