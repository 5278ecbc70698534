-- ===== src/Tests/Commands.antt =====
-- `up`, `down` and the dispatch on a machine whose state file holds a running session.
use kubeforward.Base.{
  ◌≡◌, refl, String, Bool, true, false, Option, none, some, List, [], ◌∷◌, string_eq,
}
use kubeforward.Base.Int.{ℤ, to_string_ℤ}
use kubeforward.Base.Run.{Run, returns}
use kubeforward.Store.Files.{
  save_state, save_locked, write_state, open_and_lock_state_file, load_state, load_locked,
  default_state_path_for_config,
}
use kubeforward.Store.Files.Durable.{Works, loaded, load_state-save_state}
use kubeforward.Cli.Requests.{done}
use kubeforward.Cli.Options.{Output, CommandOptions}
use kubeforward.Cli.Machine.{Machine, Disks, load_at, state_path, normalize_path}
use kubeforward.Cli.Down.{down}
use kubeforward.Cli.DownCommand.{run_down_command, down_options, down_loaded}
use kubeforward.Cli.DownCommand.Durable.{Downed, run_down_command-Downed}
use kubeforward.Cli.Dispatch.{run_cli}
use kubeforward.Cli.Dispatch.Defaults.{run_cli_defaults}
use kubeforward.Cli.UpCommand.{
  UpCalls, UpEnd, serves, run_up_command, up_loaded, up_config, up_plan, up_environment, up_ended,
}
use kubeforward.Cli.UpCommand.Durable.{Holds, run_up_command-Upped}
use kubeforward.Cli.Sessions.View.{Represents}
use kubeforward.Cli.Ready.{
  WaitStatus, validate_kubectl_executable, resolve_executable_path, find_in_path,
}
use kubeforward.Loader.Load.{ConfigLoadResult}
use kubeforward.Base.Map.{lookup}
use kubeforward.Plan.Forwards.{resolve_forward}
use kubeforward.Cli.Launch.{
  validate_sessions_support_rollback, build_prepared_launches, build_kubectl_port_forward_argv,
}
use kubeforward.Cli.Sessions.{matching_sessions, remove_matching_sessions}
use kubeforward.Cli.Start.{
  make_managed_session, new_process, ready_error, start_all, start_managed_session,
}
use kubeforward.Cli.Up.{
  preflight, check_port_availability, check_ports_available, check_plan_ports_available,
  start_and_save, replace_and_start, up,
}
use kubeforward.Conflicts.{check_runtime_session_port_conflicts, claim_eq}
use kubeforward.Tests.Planning.{prod_builds}
use kubeforward.Tests.Samples.{sample}
use kubeforward.Tests.Starting.{always_starts}
use kubeforward.Tests.Upping.{free_port, is_ready}
use kubeforward.Tests.Stepping.{no_sessions_map}
use kubeforward.Cli.Foreground.{no_signal}
use kubeforward.Tests.Waiting.{slow}
use kubeforward.Tests.Running.{gone, obedient, running, length_hash}
use kubeforward.Tests.Storing.{
  trees_as_nodes, trees_as_nodes-NodesLaws, directory, blank, saves, saving_well, loading_well,
}

abbrev pub machine : Machine
machine = record {
  system = obedient;
  nodes = trees_as_nodes;
  parent_path = directory;
  override_path = some "/tmp/state.yaml";
  absolute_normal = some;
  hash = length_hash;
  temp_directory_path = "/tmp";
}

abbrev on_disk : Disks machine
on_disk = (save_state trees_as_nodes directory saving_well "/tmp/state.yaml" running blank).disk

abbrev all_environments : CommandOptions
all_environments = record {
  show_help = false;
  daemon = false;
  verbose = false;
  config_path = "kubeforward.yaml";
  env_filter = "";
}

pub works : Works loading_well
works = record { parent = refl; lock_opens = refl; locks = refl; opens = refl }

pub read_back : (load_at machine loading_well "/tmp/state.yaml" on_disk).0 ≡ loaded running
read_back =
    load_state-save_state trees_as_nodes trees_as_nodes-NodesLaws directory "/tmp/state.yaml"
      running saving_well loading_well blank works saves

downs :
    (run_down_command machine
      (done all_environments)
      ""
      loading_well
      saving_well
      on_disk
      []).output.code
    ≡ 0
unfolding run_down_command down_options down_loaded state_path normalize_path
    default_state_path_for_config down save_state save_locked write_state open_and_lock_state_file
    string_eq to_string_ℤ
downs = rw read_back refl

run_down_command-Downed_example :
    Downed machine trees_as_nodes-NodesLaws all_environments loading_well works
      (load_at machine loading_well (state_path machine "kubeforward.yaml") on_disk).0.state
      (run_down_command machine (done all_environments) "" loading_well saving_well on_disk []).disk
run_down_command-Downed_example =
    run_down_command-Downed machine trees_as_nodes-NodesLaws all_environments loading_well works ""
      loading_well saving_well on_disk [] refl downs

abbrev never_exits : ℤ → List ℤ → Option WaitStatus × List ℤ
never_exits pid st = (none, st)

abbrev pub calls : UpCalls machine
calls = record {
  current_path = done "/work";
  kill = gone;
  probing = slow;
  sockets = free_port;
  start = always_starts;
  skip_readiness_check = true;
  wait_for_forward_ready = is_ready;
  id_time = "";
  utc_now = "";
  signal = λ st. no_signal;
  waitpid = never_exits;
  sleep_for = λ n st. st;
}

abbrev pub loads_sample : String → Run ConfigLoadResult
loads_sample name = returns (record { config = some sample; errors = [] })

abbrev pub prod_daemon : CommandOptions
prod_daemon = record all_environments { daemon = true; env_filter = "prod" }

pub loaded_no_sessions :
    Represents
      (load_at machine loading_well (state_path machine "kubeforward.yaml") blank).0.state.sessions
      no_sessions_map
unfolding load_state load_locked open_and_lock_state_file string_eq state_path
loaded_no_sessions path env = refl

run_up_command-Upped_example :
    Holds machine trees_as_nodes-NodesLaws calls 0 prod_daemon loading_well loading_well works
      saving_well blank no_sessions_map loaded_no_sessions
      (run_up_command machine calls 0 2 loads_sample
        (done prod_daemon)
        ""
        loading_well
        saving_well
        blank
        [])
run_up_command-Upped_example =
    run_up_command-Upped machine trees_as_nodes-NodesLaws calls 0 prod_daemon loading_well
      loading_well works saving_well blank no_sessions_map loaded_no_sessions "" 2 loads_sample []
      refl

abbrev pub leaves_running : Run (UpEnd machine) → Bool
leaves_running (returns (serves text left)) = true
leaves_running _ = false

pub up_leaves_prod_running :
    leaves_running (
      run_up_command machine calls 0 2 loads_sample
        (done prod_daemon)
        ""
        loading_well
        saving_well
        blank
        [])
    ≡ true
unfolding run_up_command up_loaded up_config lookup string_eq up_plan up_environment load_state
    load_locked open_and_lock_state_file state_path up_ended up preflight check_plan_ports_available
    check_ports_available check_port_availability replace_and_start start_and_save
    start_managed_session start_all ready_error make_managed_session new_process
    validate_sessions_support_rollback matching_sessions remove_matching_sessions resolve_forward
    save_state save_locked write_state build_prepared_launches check_runtime_session_port_conflicts
    validate_kubectl_executable resolve_executable_path find_in_path build_kubectl_port_forward_argv
    to_string_ℤ claim_eq
up_leaves_prod_running = rw prod_builds refl

abbrev shows : Output → List String
shows output = output.out ∷ []

abbrev named : String → List String → List String
named name args = name ∷ args

abbrev run_named : List String → List String
run_named = run_cli "1.0" shows (named "plan") (named "up") (named "down")

run_cli_defaults_example :
    (run_named ("kubeforward" ∷ "plan" ∷ "dev" ∷ []) ≡ "plan" ∷ "kubeforward plan" ∷ "dev" ∷ [])
    × (run_named ("kubeforward" ∷ "up" ∷ "dev" ∷ []) ≡ "up" ∷ "kubeforward up" ∷ "dev" ∷ [])
    × (run_named ("kubeforward" ∷ "down" ∷ "dev" ∷ []) ≡ "down" ∷ "kubeforward down" ∷ "dev" ∷ [])
    × (run_named ("kubeforward" ∷ []) ≡ "plan" ∷ "kubeforward plan" ∷ [])
    × (run_named ("kubeforward" ∷ "--env" ∷ "dev" ∷ [])
        ≡ "plan" ∷ "kubeforward plan" ∷ "--env" ∷ "dev" ∷ [])
unfolding string_eq
run_cli_defaults_example =
    run_cli_defaults "1.0" shows (named "plan") (named "up") (named "down") "kubeforward" "--env"
      ("dev" ∷ []) refl refl refl
