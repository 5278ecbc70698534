-- ===== src/Tests/Planning.antt =====
-- The plans of the sample config and of the cyclic one.
use kubeforward.Base.{
  ◌↔◌, map, is_empty, false, ◌≡◌, refl, arith, none, some, [], ◌∷◌, All, string_eq, true, String,
  Bool-cases, inl, inr, ◌==◌, subst, ==_iff,
}
use kubeforward.Base.Map.{lookup}
use kubeforward.Base.Run.{returns, out_of_fuel}
use kubeforward.Config.{EnvironmentDefinition, no_target_defaults}
use kubeforward.Plan.Types.{PlanBuildResult, ResolvedPlan}
use kubeforward.Plan.Settings.{merge_labels, prefer}
use kubeforward.Plan.Settings.Laws.{last_value, lookup-merge_labels}
use kubeforward.Plan.Resolve.{
  make_environment, build_resolved_plan, resolve_targets, resolve_environment_recursive,
  resolve_forward_definitions,
}
use kubeforward.Plan.Forwards.{resolve_forward, resolved_namespace}
use kubeforward.Plan.Chain.Environment.{make_environment-eq-nil}
use kubeforward.Plan.Correct.{
  HasChain, Builds, build_resolved_plan_filtered, build_resolved_plan_unfiltered,
}
use kubeforward.Plan.Safety.{IsSafe, build_resolved_plan-IsSafe}
use kubeforward.Plan.Cycle.{Loop, build_resolved_plan-Loop}
use kubeforward.Tests.Samples.{sample, dev, prod, web, cyclic, in_cycle, extending}

abbrev pub path : String
path = "kubeforward.yaml"

pub dev_chain : HasChain sample "dev"
unfolding lookup string_eq
dev_chain = (dev ∷ [], (refl, tt))

pub prod_chain : HasChain sample "prod"
unfolding lookup string_eq
prod_chain = (prod ∷ dev ∷ [], (refl, (refl, tt)))

build_resolved_plan_filtered_example :
    Builds sample path
      ("prod" ∷ [])
      (prod_chain, tt)
      (build_resolved_plan 2 sample path (some "prod"))
build_resolved_plan_filtered_example =
    build_resolved_plan_filtered sample 2 path "prod" prod_chain (omega arith)

build_resolved_plan_unfiltered_example :
    Builds sample path
      ("dev" ∷ "prod" ∷ [])
      (dev_chain, (prod_chain, tt))
      (build_resolved_plan 2 sample path none)
build_resolved_plan_unfiltered_example =
    build_resolved_plan_unfiltered sample 2 path (dev_chain, (prod_chain, tt)) (omega arith)

-- The plan of `prod`: the forward of `dev`, in the default namespace, with production allowed.
abbrev prod_plan : ResolvedPlan
prod_plan = record {
  config_path = path;
  environments =
      record {
        name = "prod";
        settings = record no_target_defaults { namespace_name = some "shop" };
        guards = record { allow_production = true };
        forwards =
            record {
              environment = "prod";
              name = "web";
              resource = web.resource;
              ports = web.ports;
              context = none;
              namespace_name = "shop";
              detach = true;
              restart_policy = web.restart_policy;
              health_check = none;
              env = [];
              annotations = web.annotations;
            }
            ∷ [];
      }
      ∷ [];
}

abbrev prod_result : PlanBuildResult
prod_result = record { plan = some prod_plan; errors = [] }

pub prod_builds : build_resolved_plan 2 sample path (some "prod") ≡ returns prod_result
unfolding build_resolved_plan lookup string_eq resolve_targets resolve_environment_recursive
    resolve_forward_definitions merge_labels
prod_builds = refl

build_resolved_plan-IsSafe_example : All IsSafe prod_plan.environments
build_resolved_plan-IsSafe_example =
    build_resolved_plan-IsSafe 2 sample path (some "prod") prod_result prod_plan prod_builds refl

abbrev LeadsOn : String → Type 0
LeadsOn name =
    (env : EnvironmentDefinition) × (parent : String) × (lookup name cyclic.environments ≡ some env)
    × (env.forwards ≡ [])
    × (env.extends ≡ some parent)
    × (in_cycle parent ≡ true)

left-LeadsOn : LeadsOn "left"
unfolding lookup string_eq
left-LeadsOn = (extending "left" "right", "right", refl, refl, refl, refl)

right-LeadsOn : LeadsOn "right"
unfolding lookup string_eq
right-LeadsOn = (extending "right" "left", "left", refl, refl, refl, refl)

cyclic-LeadsOn : (name : String) → in_cycle name ≡ true → LeadsOn name
cyclic-LeadsOn name m = elim (Bool-cases ("left" == name)) [
  | inl e ↦ subst LeadsOn ((==_iff "left" name).0 e) left-LeadsOn
  | inr e ↦ elim (Bool-cases ("right" == name)) [
    | inl f ↦ subst LeadsOn ((==_iff "right" name).0 f) right-LeadsOn
    | inr f ↦ ground arith
  ]
]

cyclic-Loop : Loop cyclic in_cycle
cyclic-Loop = record { next = cyclic-LeadsOn }

make_environment-eq-nil_example :
    ((make_environment "dev" sample.defaults dev.guards dev.forwards []).1 ≡ []) ↔ (
      All (λ s. is_empty (resolved_namespace s sample.defaults) ≡ false) dev.forwards
      × (dev.guards.allow_production ≡ true
          → All (λ f. f.detach ≡ true) (map (resolve_forward "dev" sample.defaults) dev.forwards)))
make_environment-eq-nil_example =
    make_environment-eq-nil "dev" sample.defaults dev.guards dev.forwards

build_resolved_plan-Loop_example : build_resolved_plan 9 cyclic path (some "left") ≡ out_of_fuel
unfolding string_eq
build_resolved_plan-Loop_example =
    build_resolved_plan-Loop cyclic in_cycle cyclic-Loop 9 path "left" refl

lookup-merge_labels_example :
    lookup "tier" (merge_labels (("tier", "a") ∷ []) (("tier", "b") ∷ []))
    ≡ prefer (lookup "tier" (("tier", "a") ∷ [])) (last_value "tier" (("tier", "b") ∷ []))
lookup-merge_labels_example = lookup-merge_labels "tier" (("tier", "a") ∷ []) (("tier", "b") ∷ [])
