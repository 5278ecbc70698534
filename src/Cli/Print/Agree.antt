-- ===== src/Cli/Print/Agree.antt =====
-- The two overloads of `PrintPlanSummary` and of `PrintPlanVerbose`.
use kubeforward.Base.{String, map}
use kubeforward.Config.{ForwardDefinition, EnvironmentDefinition}
use kubeforward.Plan.Types.{ResolvedForward, ResolvedEnvironment}

module _ (env_name : String) (namespace_of : ForwardDefinition → String) where
  -- A forward that is resolved without taking anything over from the environment's settings.
  abbrev pub as_resolved : ForwardDefinition → ResolvedForward
  as_resolved f = record {
    environment = env_name;
    name = f.name;
    resource = f.resource;
    ports = f.ports;
    context = f.resource.context;
    namespace_name = namespace_of f;
    detach = f.detach;
    restart_policy = f.restart_policy;
    health_check = f.health_check;
    env = f.env;
    annotations = f.annotations;
  }

  -- An environment that is resolved without a parent or defaults.
  abbrev pub resolved_alone : EnvironmentDefinition → ResolvedEnvironment
  resolved_alone env = record {
    name = env_name;
    settings = env.settings;
    guards = env.guards;
    forwards = map as_resolved env.forwards;
  }
