-- ===== src/Cli/UpCommand.antt =====
-- src/cli/cli.cpp: `RunUpCommand`, from the options to what it prints, and the foreground session.
pub mod Durable
use kubeforward.Base.{
  ℕ, String, ◌<>◌, Bool, true, false, not, ◌&&◌, Option, none, some, List, [], ◌∷◌, map,
  if◌then◌else◌, empty, length, to_string,
}
use kubeforward.Base.Int.{ℤ}
use kubeforward.Base.Map.{has_key}
use kubeforward.Base.Run.{Run, returns, out_of_range, ◌>>=◌}
use kubeforward.Config.{Config, PortMapping}
use kubeforward.Plan.Types.{ResolvedEnvironment, PlanBuildResult, is_ok}
use kubeforward.Plan.Resolve.{build_resolved_plan}
use kubeforward.Loader.Load.{ConfigLoadResult}
use kubeforward.Session.{ManagedForwardProcess, ManagedSession, RuntimeState}
use kubeforward.Conflicts.{Probe, check_runtime_session_port_conflicts}
use kubeforward.Store.Files.{Saving, Loading}
use kubeforward.Cli.Requests.{Result, StartProcessRequest, default_logs_directory_for_config}
use kubeforward.Cli.Launch.{build_prepared_launches}
use kubeforward.Cli.Sessions.{resolve_single_environment, matching_sessions}
use kubeforward.Cli.Ready.{Probing, WaitStatus, validate_kubectl_executable}
use kubeforward.Cli.Down.{System, Stopping}
use kubeforward.Cli.Options.{
  Output, CommandOptions, stops, goes_on, parse_command_options, refuses, load_failed,
  print_plan_errors, run_mode,
}
use kubeforward.Cli.Print.{print_each, line, print_forward_names}
use kubeforward.Cli.Machine.{
  Machine, Disks, normalize_path, state_path, load_at, save_at, state_load_failed,
}
use kubeforward.Cli.Up.{Socket, UpResult, refused, running, stop_replaced, up}
use kubeforward.Cli.Foreground.{ForegroundSignal, ForegroundEnd, run_foreground_session}

-- What else `up` asks of the system: `Start` of the runner and the wait for a forward, on the
-- system's state.
pub record UpCalls (M : Machine) : Type 1 where
  pub current_path : Result String
  pub kill : ℤ → Probe
  pub probing : Probing
  pub sockets : PortMapping → M.system.State → Socket
  pub start : StartProcessRequest → M.system.State → Result ℤ × M.system.State
  pub skip_readiness_check : Bool
  pub wait_for_forward_ready :
      ManagedForwardProcess → M.system.State → Option String × M.system.State
  pub id_time : String
  pub utc_now : String
  pub signal : M.system.State → ForegroundSignal
  pub waitpid : ℤ → M.system.State → Option WaitStatus × M.system.State
  pub sleep_for : ℕ → M.system.State → M.system.State

-- The command ends before its session runs; or it prints, leaves the session running, and ends with
-- 0; or it prints and stays attached to the session until that ends. The files are those with which
-- the session runs.
pub data UpEnd (M : Machine) : Type 0 where
  ended : Output → UpEnd M
  serves : String → Disks M → UpEnd M
  attached : String → Disks M → ForegroundEnd → UpEnd M

unfoldable pub print_up :
    CommandOptions → String → String → String → String → ℕ → ResolvedEnvironment → String
unfolding print_forward_names
print_up options env_name path kubectl logs replaced env =
    "up: starting forwards\n"
    <> line "  file: " options.config_path
    <> line "  env: " env_name
    <> line "  mode: " (run_mode options.daemon)
    <> line "  forwards: " (to_string (length env.forwards))
    <> (if options.verbose
        then line "  state: " path
          <> line "  kubectl: " kubectl
          <> line "  replaced: " (to_string replaced)
          <> line "  logs: " logs
          <> print_forward_names (map (λ f. f.name) env.forwards) "  "
        else "")

abbrev pub ended_with : (M : Machine) → String → UpEnd M
ended_with M err = ended (refuses err)

module _ (M : Machine) (calls : UpCalls M) (foreground_fuel : ℕ) (options : CommandOptions)
    (saving : Saving M.nodes.Contents) where
  abbrev pub config_key : String
  config_key = normalize_path M options.config_path

  abbrev pub file : String
  file = state_path M options.config_path

  abbrev pub save_on : Disks M → RuntimeState → Option String
  save_on disk state = (save_at M saving file disk state).error

  -- `up` with what it takes from the other parts.
  abbrev pub up_on :
      ResolvedEnvironment → RuntimeState → Disks M → M.system.State → UpResult × M.system.State
  up_on env state disk =
      up M.system calls.sockets config_key env options.daemon
        (build_prepared_launches M.hash M.temp_directory_path calls.current_path config_key env
          options.daemon)
        state (check_runtime_session_port_conflicts calls.kill state config_key env)
        (validate_kubectl_executable calls.probing "kubectl") calls.start calls.skip_readiness_check
        calls.wait_for_forward_ready (save_on disk) calls.id_time calls.utc_now
        (λ e. "failed to save runtime state '" <> file <> "': " <> e)

  -- After `up`; `replaced` is the number of processes that were stopped for it.
  unfoldable pub up_ended :
      String → ResolvedEnvironment → ℕ → Disks M → UpResult → M.system.State → UpEnd M
  unfolding print_up
  up_ended env_name env replaced disk (refused lines) st =
      ended_with M (print_each (λ l. l <> "\n") lines)
  up_ended env_name env replaced disk (running session state) st =
      let text =
        print_up options env_name file "kubectl"
          (default_logs_directory_for_config M.hash M.temp_directory_path config_key) replaced
          env in
      let disk' = (save_at M saving file disk state).disk in
      if not options.daemon && not M.system.use_noop_runner
      then attached text disk'
          (run_foreground_session M.system calls.signal calls.waitpid calls.sleep_for
            foreground_fuel (save_on disk') state session st).0
      else serves text disk'

  -- The processes that `up` stops for the session.
  abbrev pub replaced_processes : ResolvedEnvironment → RuntimeState → M.system.State → ℕ
  replaced_processes env state st =
      (stop_replaced M.system calls.sockets (matching_sessions state config_key env.name)
        (record { stop_failed = false; stopped_processes = 0; system = st })).stopped_processes

  -- From the plan's environment on.
  unfoldable pub up_environment :
      String → Loading → Disks M → M.system.State → ResolvedEnvironment → UpEnd M
  unfolding up_ended
  up_environment env_name loading disk st env =
      let (result, disk') = load_at M loading file disk in
      if empty result.errors
      then (let (outcome, st') = up_on env result.state disk' st in
          up_ended env_name env (replaced_processes env result.state st) disk' outcome st')
      else ended (state_load_failed "up" file result.errors)

  -- From the plan on; `at(0)` may throw.
  unfoldable pub up_plan :
      String → Loading → Disks M → M.system.State → PlanBuildResult → Run (UpEnd M)
  unfolding up_environment
  up_plan env_name loading disk st result = elim result.plan [
    | none ↦ returns (
        ended_with M ("up: failed to resolve execution plan.\n" <> print_plan_errors result.errors))
    | some plan ↦ elim (empty result.errors) [
      | false ↦ returns (
          ended_with M
            ("up: failed to resolve execution plan.\n" <> print_plan_errors result.errors))
      | true ↦ elim plan.environments [
        | [] ↦ out_of_range
        | env ∷ _ ↦ returns (up_environment env_name loading disk st env)
      ]
    ]
  ]

  -- From the config on.
  unfoldable pub up_config : ℕ → Loading → Disks M → M.system.State → Config → Run (UpEnd M)
  unfolding up_plan resolve_single_environment
  up_config fuel loading disk st config =
      elim (resolve_single_environment config options.env_filter) [
        | none ↦ returns (ended_with M "up: no environments defined in config.\n")
        | some env_name ↦
            if has_key env_name config.environments
            then (build_resolved_plan fuel config options.config_path (some env_name)
                >>= up_plan env_name loading disk st)
            else returns (ended_with M ("up: unknown environment '" <> env_name <> "'.\n"))
      ]

  unfoldable pub up_loaded :
      ℕ → Loading → Disks M → M.system.State → ConfigLoadResult → Run (UpEnd M)
  unfolding up_config
  up_loaded fuel loading disk st result = elim result.config [
    | none ↦ returns (ended (load_failed "up" options.config_path result.errors))
    | some config ↦ up_config fuel loading disk st config
  ]

-- `load` is `LoadConfigFromFile`.
unfoldable pub run_up_command :
    (M : Machine)
    → UpCalls M
    → ℕ
    → ℕ
    → (String → Run ConfigLoadResult)
    → Result CommandOptions
    → String
    → Loading
    → Saving M.nodes.Contents
    → Disks M
    → M.system.State
    → Run (UpEnd M)
unfolding up_loaded parse_command_options
run_up_command M calls foreground_fuel fuel load parsed help loading saving disk st =
    elim (parse_command_options "up" parsed help) [
      | stops output ↦ returns (ended output)
      | goes_on options ↦
          load options.config_path
          >>= up_loaded M calls foreground_fuel options saving fuel loading disk st
    ]
