-- ===== src/Cli/PlanCommand.antt =====
-- src/cli/cli.cpp: `RunPlanCommand`. Loading and planning may throw or run out of fuel, and so does
-- the command. It exits with 2 on every error of the config, where docs/config-schema.md has 3 for
-- those of its meaning.
pub mod Laws
pub mod Total
use kubeforward.Base.{
  ℕ, String, ◌<>◌, Bool, true, false, Option, none, some, List, [], ◌∷◌, if◌then◌else◌, is_empty,
  empty,
}
use kubeforward.Base.Map.{lookup}
use kubeforward.Base.Run.{Run, returns, out_of_range, out_of_fuel, ◌>>=◌}
use kubeforward.Config.{Config, EnvironmentDefinition}
use kubeforward.Plan.Types.{ResolvedEnvironment, ResolvedPlan, PlanBuildResult, PlanBuildError}
use kubeforward.Plan.Resolve.{build_resolved_plan}
use kubeforward.Loader.Load.{ConfigLoadResult}
use kubeforward.Cli.Requests.{Result, done, failed}
use kubeforward.Cli.Options.{
  Output, CommandOptions, Options, stops, goes_on, parse_command_options, refuses, load_failed,
  print_plan_errors,
}
use kubeforward.Cli.Print.{print_plan_summary, print_plan_verbose, print_verbose_header}

-- `env_filter.empty() ? {} : env_filter`
abbrev pub filter_option : String → Option String
filter_option env_filter = if is_empty env_filter then none else some env_filter

unfoldable pub print_environment : Bool → EnvironmentDefinition → ResolvedEnvironment → String
unfolding print_plan_summary print_plan_verbose
print_environment verbose source_env env =
    if verbose then print_plan_verbose source_env env else print_plan_summary source_env env

-- The loop over the plan, where `at` may throw.
unfoldable pub print_environments : Bool → Config → List ResolvedEnvironment → Run String
print_environments verbose config [] = returns ""
print_environments verbose config (env ∷ envs) = elim (lookup env.name config.environments) [
  | none ↦ out_of_range
  | some source_env ↦ print_environments verbose config envs >>= λ rest.
      returns (print_environment verbose source_env env <> rest)
]

-- From the plan on; the errors are printed unless the result is ok.
unfoldable pub print_plan : CommandOptions → Config → PlanBuildResult → Run Output
unfolding print_environments print_verbose_header
print_plan options config result = elim result.plan [
  | none ↦
      returns
        (refuses ("plan: failed to resolve execution plan.\n" <> print_plan_errors result.errors))
  | some plan ↦ elim (empty result.errors) [
    | false ↦
        returns
          (refuses ("plan: failed to resolve execution plan.\n" <> print_plan_errors result.errors))
    | true ↦ print_environments options.verbose config plan.environments >>= λ text.
        returns (record {
          code = 0;
          out =
              (if options.verbose then print_verbose_header config options.config_path else "")
              <> text;
          err = "";
        })
  ]
]

unfoldable pub plan_config : ℕ → CommandOptions → Config → Run Output
unfolding print_plan
plan_config fuel options config =
    if empty config.environments
    then returns (record { code = 0; out = "No environments defined in config.\n"; err = "" })
    else (build_resolved_plan fuel config options.config_path (filter_option options.env_filter)
        >>= λ result. print_plan options config result)

-- From the result of loading on.
unfoldable pub plan_loaded : ℕ → CommandOptions → ConfigLoadResult → Run Output
unfolding plan_config
plan_loaded fuel options result = elim result.config [
  | none ↦ returns (load_failed "plan" options.config_path result.errors)
  | some config ↦ plan_config fuel options config
]

-- `load` is `LoadConfigFromFile`.
unfoldable pub run_plan_command :
    ℕ → (String → Run ConfigLoadResult) → Result CommandOptions → String → Run Output
unfolding plan_loaded parse_command_options
run_plan_command fuel load parsed help = elim (parse_command_options "plan" parsed help) [
  | stops output ↦ returns output
  | goes_on options ↦ load options.config_path >>= plan_loaded fuel options
]
