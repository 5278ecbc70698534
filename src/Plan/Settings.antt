-- ===== src/Plan/Settings.antt =====
-- src/runtime/resolved_plan.cpp: how an environment's settings and guards override its parent's.
pub mod Laws
use kubeforward.Base.{String, ◌||◌, Option, none, some, [], ◌∷◌}
use kubeforward.Base.Map.{Map, insert}
use kubeforward.Config.{TargetDefaults, EnvironmentGuards}

-- `if (override.x.has_value()) merged.x = override.x;`
abbrev pub prefer {ℓ} : {A : Type ℓ} → Option A → Option A → Option A
prefer base none = base
prefer base (some v) = some v

-- `for (const auto& [key, value] : override.labels) merged.labels[key] = value;`
unfoldable pub merge_labels : Map String → Map String → Map String
merge_labels base [] = base
merge_labels base ((key, value) ∷ override) = merge_labels (insert key value base) override

unfoldable pub merge_target_defaults : TargetDefaults → TargetDefaults → TargetDefaults
merge_target_defaults base override = record {
  kubeconfig = prefer base.kubeconfig override.kubeconfig;
  context = prefer base.context override.context;
  namespace_name = prefer base.namespace_name override.namespace_name;
  bind_address = prefer base.bind_address override.bind_address;
  labels = merge_labels base.labels override.labels;
}

unfoldable pub merge_environment_guards : EnvironmentGuards → EnvironmentGuards → EnvironmentGuards
merge_environment_guards base override = record base {
  allow_production = base.allow_production || override.allow_production;
}
