-- ===== src/Tests/Running.antt =====
-- A running session that holds the sample's port, and the preflight check against it.
use native.Mathlib.Decide.{ℕ_discrete}
use kubeforward.Base.{
  ℕ, length, List, Option, String, ◌≡◌, refl, true, none, some, [], ◌∷◌, string_eq, ◌↔◌, All, map,
  contains, false,
}
use kubeforward.Base.Int.{ℤ, pos, int_eq, to_string_ℤ}
use kubeforward.Config.{PortProtocol}
use kubeforward.Plan.Types.{ResolvedEnvironment}
use kubeforward.Plan.Forwards.{resolve_forward}
use kubeforward.Session.{ManagedForwardProcess, ManagedSession, RuntimeState}
use kubeforward.Conflicts.{
  Probe, target_ports, conflict_message, check_runtime_session_port_conflicts, claim_eq,
}
use kubeforward.Cli.Requests.{done}
use kubeforward.Cli.Launch.{
  build_prepared_launches, build_kubectl_port_forward_argv, restored_launch,
  build_prepared_launches_from_session, validate_sessions_support_rollback,
}
use kubeforward.Loader.Ip.{codes}
use kubeforward.Cli.Launch.Ports.{Launches, plan_ports, IsForwardable, build_prepared_launches_iff}
use kubeforward.Cli.Launch.Laws.{validate_sessions_support_rollback_iff}
use kubeforward.Cli.Sessions.{matching_sessions, remove_matching_sessions}
use kubeforward.Cli.Sessions.Laws.{matching_sessions-remove_matching_sessions}
use kubeforward.Cli.Down.{System, down}
use kubeforward.Cli.Down.Laws.{other_sessions, down_iff}
use kubeforward.Conflicts.Exact.{Verdict, check_runtime_session_port_conflicts-Verdict}
use kubeforward.Tests.Samples.{sample, web, web_port}

abbrev pub prod_environment : ResolvedEnvironment
prod_environment = record {
  name = "prod";
  settings = sample.defaults;
  guards = record { allow_production = true };
  forwards = resolve_forward "prod" sample.defaults web ∷ [];
}

abbrev pub web_process : ManagedForwardProcess
web_process = record {
  environment = "dev";
  forward_name = "web";
  argv = "kubectl" ∷ [];
  cwd = "/";
  log_path = "";
  bind_address = "";
  local_port = pos 8080;
  remote_port = pos 80;
  protocol = PortProtocol.tcp;
  pid = pos 41;
}

abbrev pub dev_session : ManagedSession
dev_session = record {
  id = "s1";
  config_path = "kubeforward.yaml";
  environment = "dev";
  daemon = true;
  started_at_utc = "";
  forwards = web_process ∷ [];
}

abbrev pub running : RuntimeState
running = record { sessions = dev_session ∷ [] }

abbrev owned_by_another_user : ℤ → Probe
owned_by_another_user pid = Probe.not_permitted

abbrev pub gone : ℤ → Probe
gone pid = Probe.failed

check_runtime_session_port_conflicts-Verdict_example :
    Verdict owned_by_another_user "kubeforward.yaml" "prod"
      (target_ports prod_environment.forwards)
      (dev_session ∷ [])
      (check_runtime_session_port_conflicts owned_by_another_user running "kubeforward.yaml"
        prod_environment)
check_runtime_session_port_conflicts-Verdict_example =
    check_runtime_session_port_conflicts-Verdict owned_by_another_user running "kubeforward.yaml"
      prod_environment

reports_held_port :
    check_runtime_session_port_conflicts owned_by_another_user running "kubeforward.yaml"
      prod_environment
    ≡ some (conflict_message dev_session web_process)
unfolding check_runtime_session_port_conflicts string_eq resolve_forward claim_eq ℕ_discrete
reports_held_port = refl

ignores_dead_process :
    check_runtime_session_port_conflicts gone running "kubeforward.yaml" prod_environment ≡ none
unfolding check_runtime_session_port_conflicts string_eq resolve_forward claim_eq ℕ_discrete
ignores_dead_process = refl

validate_sessions_support_rollback_iff_example :
    (validate_sessions_support_rollback (dev_session ∷ []) ≡ none)
    ↔ All
        (λ s. build_prepared_launches_from_session s ≡ done (map (restored_launch s) s.forwards))
        (dev_session ∷ [])
validate_sessions_support_rollback_iff_example =
    validate_sessions_support_rollback_iff (dev_session ∷ [])

matching_sessions-remove_matching_sessions_example :
    (matching_sessions
        (remove_matching_sessions running "kubeforward.yaml" "dev")
        "kubeforward.yaml"
        "dev"
      ≡ [])
    × (matching_sessions
          (remove_matching_sessions running "kubeforward.yaml" "dev")
          "kubeforward.yaml"
          "prod"
        ≡ matching_sessions running "kubeforward.yaml" "prod")
unfolding string_eq
matching_sessions-remove_matching_sessions_example =
    matching_sessions-remove_matching_sessions "kubeforward.yaml" "dev" refl running
      "kubeforward.yaml" "prod" refl refl

-- Processes that stop, and the pids that were asked to.
abbrev pub obedient : System
obedient = record {
  State = List ℤ;
  use_noop_runner = false;
  stop = λ pid stopped. (none, pid ∷ stopped);
  is_gone = λ stopped pid. contains stopped pid;
  popen = λ stopped command. some "/bin/kubectl port-forward svc/web 8080:80\n";
  filename = λ path. path;
}

abbrev saved : RuntimeState → Option String
saved state = none

down_iff_example :
    (((down obedient "kubeforward.yaml" "" saved running []).0 ≡ 0) ↔ (
      (saved (down obedient "kubeforward.yaml" "" saved running []).1 ≡ none)
      × (matching_sessions
            (down obedient "kubeforward.yaml" "" saved running []).1
            "kubeforward.yaml"
            ""
          ≡ [])))
    × (other_sessions obedient "kubeforward.yaml" ""
          (down obedient "kubeforward.yaml" "" saved running []).1.sessions
        ≡ other_sessions obedient "kubeforward.yaml" "" running.sessions)
down_iff_example = down_iff obedient "kubeforward.yaml" "" saved running []

stops_the_process : (down obedient "kubeforward.yaml" "dev" saved running []).2.system ≡ pos 41 ∷ []
unfolding down string_eq to_string_ℤ
stops_the_process = refl

abbrev pub length_hash : String → ℕ
length_hash path = length (codes path)

build_prepared_launches_iff_example :
    Launches
      (build_prepared_launches length_hash "/tmp"
        (done "/work")
        "kubeforward.yaml"
        prod_environment
        true)
      (plan_ports prod_environment.forwards)
    ↔ All (λ f. All (IsForwardable f) f.ports) prod_environment.forwards
build_prepared_launches_iff_example =
    build_prepared_launches_iff length_hash "/tmp" "/work" "kubeforward.yaml" prod_environment true

serves_the_web :
    build_kubectl_port_forward_argv prod_environment
      (resolve_forward "prod" sample.defaults web)
      web_port
    ≡ done ("kubectl" ∷ "port-forward" ∷ "service/web" ∷ "8080:80" ∷ "--namespace" ∷ "shop" ∷ [])
unfolding build_kubectl_port_forward_argv resolve_forward to_string_ℤ
serves_the_web = refl
