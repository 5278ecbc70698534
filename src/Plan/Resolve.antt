-- ===== src/Plan/Resolve.antt =====
-- src/runtime/resolved_plan.cpp: resolution along `extends`, and the plan. The recursive functions
-- run on fuel, `std::map::at` may throw, and the cache, the visiting set and the error list are
-- passed along as one state.
use kubeforward.Base.{
  ℕ, zero, suc, String, ◌<>◌, true, false, Option, none, some, List, [], ◌∷◌, ◌==◌, contains,
  string_eq, if◌then◌else◌, empty, filter, not,
}
use kubeforward.Base.Map.{Map, lookup, emplace, keys, has_key}
use kubeforward.Config.{
  Config, TargetDefaults, EnvironmentGuards, EnvironmentDefinition, ForwardDefinition, no_guards,
}
use kubeforward.Base.Run.{Run, returns, out_of_range, out_of_fuel, ◌>>=◌}
use kubeforward.Plan.Types.{ResolvedEnvironment, PlanBuildError, PlanBuildResult, add_error}
use kubeforward.Plan.Settings.{merge_target_defaults, merge_environment_guards}
use kubeforward.Plan.Forwards.{resolve_forwards, validate_resolved_environment}

unfoldable pub resolve_forward_definitions : ℕ → String → Config → Run (List ForwardDefinition)
resolve_forward_definitions zero env_name config = out_of_fuel
resolve_forward_definitions (suc fuel) env_name config =
    elim (lookup env_name config.environments) [
      | none ↦ out_of_range
      | some env ↦ elim (empty env.forwards) [
        | false ↦ returns env.forwards
        | true ↦ elim env.extends [
          | none ↦ returns []
          | some parent ↦ elim (has_key parent config.environments) [
            | true ↦ resolve_forward_definitions fuel parent config
            | false ↦ returns []
          ]
        ]
      ]
    ]

pub record ResolveState : Type 0 where
  pub cache : Map ResolvedEnvironment
  pub visiting : List String
  pub errors : List PlanBuildError

-- `visiting.insert` and `visiting.erase`: only membership in the set is read.
abbrev pub visit : String → List String → List String
visit name visiting = name ∷ visiting

abbrev pub leave : String → List String → List String
leave name = filter (λ v. not (v == name))

abbrev pub parent_settings : Config → Option ResolvedEnvironment → TargetDefaults
parent_settings config parent = elim parent [ some p ↦ p.settings | none ↦ config.defaults ]

abbrev pub parent_guards : Option ResolvedEnvironment → EnvironmentGuards
parent_guards parent = elim parent [ some p ↦ p.guards | none ↦ no_guards ]

-- The environment that `ResolveEnvironmentRecursive` makes, with the errors that it adds.
unfoldable pub make_environment :
    String
    → TargetDefaults
    → EnvironmentGuards
    → List ForwardDefinition
    → List PlanBuildError
    → ResolvedEnvironment × List PlanBuildError
unfolding resolve_forwards validate_resolved_environment
make_environment env_name settings guards definitions errors =
    let forwards = resolve_forwards env_name definitions settings errors in
    let resolved : ResolvedEnvironment = record {
      name = env_name;
      settings = settings;
      guards = guards;
      forwards = forwards.0;
    } in
    (resolved, validate_resolved_environment resolved forwards.1)

-- The part of `ResolveEnvironmentRecursive` below the recursive call.
unfoldable pub finish_environment :
    ℕ
    → String
    → Config
    → EnvironmentDefinition
    → Option ResolvedEnvironment
    → ResolveState
    → Run (Option ResolvedEnvironment × ResolveState)
unfolding make_environment merge_target_defaults merge_environment_guards
finish_environment fuel env_name config env parent st = do
  let settings = merge_target_defaults (parent_settings config parent) env.settings
  let guards = merge_environment_guards (parent_guards parent) env.guards
  definitions ← resolve_forward_definitions fuel env_name config
  let made = make_environment env_name settings guards definitions st.errors
  returns (
    some made.0,
    record {
      cache = emplace env_name made.0 st.cache;
      visiting = leave env_name st.visiting;
      errors = made.1;
    },
  )

unfoldable pub resolve_environment_recursive :
    ℕ → String → Config → ResolveState → Run (Option ResolvedEnvironment × ResolveState)
unfolding finish_environment add_error
resolve_environment_recursive zero env_name config st = out_of_fuel
resolve_environment_recursive (suc fuel) env_name config st = elim (lookup env_name st.cache) [
  | some cached ↦ returns (some cached, st)
  | none ↦ elim (contains st.visiting env_name) [
    | true ↦ returns (
      none,
      record st {
        errors =
            add_error st.errors ("environments." <> env_name <> ".extends")
              "cyclic dependency detected during plan resolution";
      },
    )
    | false ↦ elim (lookup env_name config.environments) [
      | none ↦ returns (
        none,
        record st {
          errors = add_error st.errors ("environments." <> env_name) "unknown environment";
        },
      )
      | some env ↦
          let st' : ResolveState = record st { visiting = visit env_name st.visiting } in
          elim env.extends [
            | none ↦ finish_environment (suc fuel) env_name config env none st'
            | some parent_name ↦
                resolve_environment_recursive fuel parent_name config st' >>= λ (parent, st'').
                finish_environment (suc fuel) env_name config env parent st''
          ]
    ]
  ]
]

-- The loop of `BuildResolvedPlan` over the targets; it gives the plan's environments.
unfoldable pub resolve_targets :
    ℕ → List String → Config → ResolveState → Run (List ResolvedEnvironment × ResolveState)
resolve_targets fuel [] config st = returns ([], st)
resolve_targets fuel (target ∷ targets) config st = do
  (resolved, st') ← resolve_environment_recursive fuel target config st
  (rest, st'') ← resolve_targets fuel targets config st'
  returns (elim resolved [ some env ↦ env ∷ rest | none ↦ rest ], st'')

abbrev pub initial : ResolveState
initial = record { cache = []; visiting = []; errors = [] }

-- The plan is given out only if no error was reported.
abbrev pub plan_result : String → List ResolvedEnvironment → List PlanBuildError → PlanBuildResult
plan_result config_path environments errors = record {
  plan = elim errors [
    | [] ↦ some (record { config_path = config_path; environments = environments })
    | _ ∷ _ ↦ none
  ];
  errors = errors;
}

unfoldable pub build_targets : ℕ → Config → String → List String → Run PlanBuildResult
build_targets fuel config config_path targets =
    resolve_targets fuel targets config initial >>= λ (environments, st).
    returns (plan_result config_path environments st.errors)

unfoldable pub build_resolved_plan : ℕ → Config → String → Option String → Run PlanBuildResult
unfolding build_targets
build_resolved_plan fuel config config_path none =
    build_targets fuel config config_path (keys config.environments)
build_resolved_plan fuel config config_path (some env_filter) =
    if has_key env_filter config.environments
    then build_targets fuel config config_path (env_filter ∷ [])
    else returns (record {
      plan = none;
      errors = add_error [] ("environments." <> env_filter) "unknown environment";
    })
