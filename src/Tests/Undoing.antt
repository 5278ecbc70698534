-- ===== src/Tests/Undoing.antt =====
-- The `down` after the `up` of `prod`.
use kubeforward.Base.{◌≡◌, refl, String, true, string_eq, [], arith}
use kubeforward.Base.Int.{to_string_ℤ}
use kubeforward.Base.Map.{lookup}
use kubeforward.Base.Run.{Run, returns}
use kubeforward.Store.Files.{
  save_state, save_locked, write_state, open_and_lock_state_file, load_state, load_locked,
  load_contents,
}
use kubeforward.Store.Parse.{parse_state_node, parse_forward}
use kubeforward.Store.Serialize.{serialize_state, serialize_forward}
use kubeforward.Cli.Requests.{done}
use kubeforward.Cli.Machine.{Disks, state_path, normalize_path}
use kubeforward.Cli.Sessions.View.{clear}
use kubeforward.Cli.Undo.{HoldsMap, run_down_command-run_up_command}
use kubeforward.Cli.Down.{down, stop_session}
use kubeforward.Cli.DownCommand.{run_down_command, down_options, down_loaded}
use kubeforward.Cli.UpCommand.{
  UpEnd, serves, run_up_command, up_loaded, up_config, up_plan, up_environment, up_ended,
}
use kubeforward.Cli.Ready.{validate_kubectl_executable, resolve_executable_path, find_in_path}
use kubeforward.Plan.Forwards.{resolve_forward}
use kubeforward.Cli.Launch.{
  validate_sessions_support_rollback, build_prepared_launches, build_kubectl_port_forward_argv,
}
use kubeforward.Cli.Sessions.{matching_sessions, remove_matching_sessions}
use kubeforward.Cli.Start.{
  make_managed_session, new_process, ready_error, start_all, start_managed_session,
}
use kubeforward.Cli.Up.{
  preflight, check_port_availability, check_ports_available, check_plan_ports_available,
  start_and_save, replace_and_start, up,
}
use kubeforward.Conflicts.{check_runtime_session_port_conflicts, claim_eq}
use kubeforward.Tests.Planning.{prod_builds}
use kubeforward.Tests.Storing.{trees_as_nodes-NodesLaws, blank, saving_well, loading_well}
use kubeforward.Tests.Stepping.{no_sessions_map}
use kubeforward.Tests.Commands.{
  machine, calls, loads_sample, prod_daemon, leaves_running, works, loaded_no_sessions,
  up_leaves_prod_running,
}

abbrev text_of : Run (UpEnd machine) → String
text_of (returns (serves text left)) = text
text_of _ = ""

abbrev left_of : Run (UpEnd machine) → Disks machine
left_of (returns (serves text left)) = left
left_of _ = blank

leaves_running_lem :
    (run : Run (UpEnd machine))
    → leaves_running run ≡ true
    → run ≡ returns (serves (text_of run) (left_of run))
leaves_running_lem run h = ground arith

abbrev up_prod : Run (UpEnd machine)
up_prod =
    run_up_command machine calls 0 2 loads_sample (done prod_daemon) "" loading_well saving_well
      blank []

downs_prod :
    (run_down_command machine
      (done prod_daemon)
      ""
      loading_well
      saving_well
      (left_of up_prod)
      []).output.code
    ≡ 0
unfolding run_up_command up_loaded up_config lookup string_eq up_plan up_environment load_state
    load_locked open_and_lock_state_file state_path up_ended up preflight check_plan_ports_available
    check_ports_available check_port_availability replace_and_start start_and_save
    start_managed_session start_all ready_error make_managed_session new_process
    validate_sessions_support_rollback matching_sessions remove_matching_sessions resolve_forward
    save_state save_locked write_state build_prepared_launches check_runtime_session_port_conflicts
    validate_kubectl_executable resolve_executable_path find_in_path build_kubectl_port_forward_argv
    to_string_ℤ claim_eq run_down_command down_options down_loaded down load_contents
    parse_state_node serialize_state parse_forward serialize_forward normalize_path stop_session
downs_prod = rw prod_builds refl

run_down_command-run_up_command_example :
    HoldsMap machine trees_as_nodes-NodesLaws prod_daemon loading_well works saving_well refl refl
      (run_down_command machine
        (done prod_daemon)
        ""
        loading_well
        saving_well
        (left_of up_prod)
        []).disk
      (clear "kubeforward.yaml" "prod" no_sessions_map)
unfolding normalize_path
run_down_command-run_up_command_example =
    run_down_command-run_up_command machine trees_as_nodes-NodesLaws prod_daemon loading_well works
      saving_well refl refl calls 0 blank no_sessions_map loaded_no_sessions "" 2 loads_sample [] []
      (text_of up_prod) (left_of up_prod) (leaves_running_lem up_prod up_leaves_prod_running)
      downs_prod
