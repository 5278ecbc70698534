-- ===== src/Tests/Loading.antt =====
-- Loading the sample document, and the checks of what was read.
use kubeforward.Base.{
  ap, ◌≤◌, ◌≡◌, refl, arith, some, [], ◌↔◌, All, length, List, string_eq, false, true,
}
use kubeforward.Base.Int.{int_eq}
use kubeforward.Base.Map.{keys, lookup, emplace, insert}
use kubeforward.Base.Run.{returns}
use kubeforward.Config.{Config}
use kubeforward.Plan.Types.{PlanBuildResult}
use kubeforward.Plan.Resolve.{build_resolved_plan}
use kubeforward.Plan.Correct.{HasChain}
use kubeforward.Loader.Errors.{Loaded, ConfigLoadError}
use kubeforward.Loader.Ip.{is_ip_literal}
use kubeforward.Loader.Scalars.{
  ensure_allowed_keys, read_optional_int, read_optional_string, read_optional_bool,
  parse_string_map, parse_resource_kind,
}
use kubeforward.Loader.Parts.{
  parse_target_defaults, parse_environment_guards, parse_resource_selector, parse_port_mapping,
  parse_health_check,
}
use kubeforward.Loader.Forwards.{parse_environment, parse_forward}
use kubeforward.Loader.Validate.{
  validate_environment, validate_environments, validate_global_forward_names,
}
use kubeforward.Loader.Validate.Exact.{IsValidEnvironment, validate_environment_iff}
use kubeforward.Loader.Extends.{validate_environment_extends, visit_all, visit, check_parents}
use kubeforward.Loader.Extends.Exact.{IsMap, validate_environment_extends_iff}
use kubeforward.Loader.Load.{ConfigLoadResult, parse_config, load_config}
use kubeforward.Loader.Load.Sound.{
  IsLoadable, load_config-returns, load_config-IsLoadable, build_resolved_plan-returns,
}
use kubeforward.Tests.Document.{document}
use kubeforward.Tests.Samples.{root, sample, dev}

root_read : parse_config document root ≡ record { value = sample; errors = [] }
unfolding parse_config read_optional_int string_eq parse_target_defaults int_eq read_optional_string
    parse_string_map lookup emplace insert parse_environment parse_environment_guards parse_forward
    parse_resource_selector parse_port_mapping read_optional_bool parse_health_check
    parse_resource_kind ensure_allowed_keys
root_read = refl

pub two_environments : length (parse_config document root).value.environments ≤ 2
two_environments = rw root_read (omega arith)

abbrev root_result : ConfigLoadResult
root_result = record { config = some sample; errors = [] }

sample_extends : validate_environment_extends 2 sample ≡ returns []
unfolding validate_environment_extends visit_all lookup visit string_eq insert check_parents
sample_extends = refl

sample_environments : (validate_environments sample.environments).errors ≡ []
unfolding validate_environments int_eq
sample_environments = refl

sample_names : (validate_global_forward_names sample).errors ≡ []
unfolding validate_global_forward_names insert lookup
sample_names = refl

root_loads : load_config document 2 root ≡ returns root_result
unfolding load_config
root_loads =
    rw (root_read, sample_extends, sample_environments, sample_names, load_config)
      (ap (λ (read : Loaded Config). returns (record { config = some read.value; errors = [] }))
        root_read)

load_config-returns_example :
    (result : ConfigLoadResult) × (load_config document 2 root ≡ returns result)
load_config-returns_example = load_config-returns document root 2 two_environments

load_config-IsLoadable_example :
    (root_result.errors ≡ []) × (sample ≡ (parse_config document root).value) × IsLoadable sample
load_config-IsLoadable_example =
    load_config-IsLoadable document root 2 root_result sample two_environments root_loads refl

sample-IsLoadable : IsLoadable sample
sample-IsLoadable =
    (load_config-IsLoadable document root 2 root_result sample two_environments root_loads refl).2

build_resolved_plan-returns_example :
    (result : PlanBuildResult) × (build_resolved_plan 2 sample "kubeforward.yaml" (some "prod")
      ≡ returns result)
build_resolved_plan-returns_example =
    build_resolved_plan-returns sample "kubeforward.yaml" (some "prod") 2 sample-IsLoadable
      (omega arith)

sample-IsMap : IsMap sample.environments
unfolding lookup string_eq
sample-IsMap = record { found = (refl, (refl, tt)) }

validate_environment_extends-iff_example :
    (errors : List ConfigLoadError) × (validate_environment_extends 2 sample ≡ returns errors)
    × ((errors ≡ []) ↔ All (HasChain sample) (keys sample.environments))
validate_environment_extends-iff_example =
    validate_environment_extends_iff sample 2 (omega arith) sample-IsMap

validate_environment-iff_example : ((validate_environment dev).errors ≡ []) ↔ IsValidEnvironment dev
validate_environment-iff_example = validate_environment_iff dev

accepts_loopback : is_ip_literal "127.0.0.1" ≡ true
unfolding is_ip_literal
accepts_loopback = refl

rejects_large_segment : is_ip_literal "256.0.0.1" ≡ false
unfolding is_ip_literal
rejects_large_segment = refl

rejects_host_name : is_ip_literal "localhost" ≡ false
unfolding is_ip_literal
rejects_host_name = refl
