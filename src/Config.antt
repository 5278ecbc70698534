-- ===== src/Config.antt =====
-- include/kubeforward/config/types.h: the model of a config file. `int` is `ℤ`, `std::string` is
-- `String`, `std::map` is the ordered `Map`.
use kubeforward.Base.{String, Bool, false, Option, none, List, []}
use kubeforward.Base.Int.{ℤ, pos}
use kubeforward.Base.Map.{Map}

pub data ResourceKind : Type 0 where
  pod deployment service stateful_set : ResourceKind

pub data PortProtocol : Type 0 where
  tcp udp : PortProtocol

pub data RestartPolicy : Type 0 where
  fail_fast replace : RestartPolicy

pub record Metadata : Type 0 where
  pub project : String
  pub owner : Option String

pub record TargetDefaults : Type 0 where
  pub kubeconfig : Option String
  pub context : Option String
  pub namespace_name : Option String
  pub bind_address : Option String
  pub labels : Map String

pub record EnvironmentGuards : Type 0 where
  pub allow_production : Bool

pub record ResourceSelector : Type 0 where
  pub kind : ResourceKind
  pub name : Option String
  pub context : Option String
  pub namespace_override : Option String

pub record PortMapping : Type 0 where
  pub local_port : ℤ
  pub remote_port : ℤ
  pub bind_address : Option String
  pub protocol : PortProtocol

pub record HealthCheck : Type 0 where
  pub exec : List String
  pub timeout_ms : Option ℤ

pub record ForwardDefinition : Type 0 where
  pub name : String
  pub resource : ResourceSelector
  pub ports : List PortMapping
  pub detach : Bool
  pub restart_policy : RestartPolicy
  pub health_check : Option HealthCheck
  pub env : Map String
  pub annotations : Map String

pub record EnvironmentDefinition : Type 0 where
  pub name : String
  pub extends : Option String
  pub description : Option String
  pub settings : TargetDefaults
  pub guards : EnvironmentGuards
  pub forwards : List ForwardDefinition

pub record Config : Type 0 where
  pub version : ℤ
  pub metadata : Metadata
  pub defaults : TargetDefaults
  pub environments : Map EnvironmentDefinition

-- The values of the member initialisers.
abbrev pub no_target_defaults : TargetDefaults
no_target_defaults = record {
  kubeconfig = none;
  context = none;
  namespace_name = none;
  bind_address = none;
  labels = [];
}

abbrev pub no_guards : EnvironmentGuards
no_guards = record { allow_production = false }

abbrev pub no_resource : ResourceSelector
no_resource = record {
  kind = ResourceKind.pod;
  name = none;
  context = none;
  namespace_override = none;
}

abbrev pub no_port : PortMapping
no_port = record {
  local_port = pos 0;
  remote_port = pos 0;
  bind_address = none;
  protocol = PortProtocol.tcp;
}

abbrev pub no_forward : ForwardDefinition
no_forward = record {
  name = "";
  resource = no_resource;
  ports = [];
  detach = false;
  restart_policy = RestartPolicy.fail_fast;
  health_check = none;
  env = [];
  annotations = [];
}
