-- ===== src/Tests/Upping.antt =====
-- `up` for an environment of the sample, with nothing that runs.
use kubeforward.Base.{String, true, false, ◌≡◌, refl, Option, none, List, [], ◌∷◌, string_eq}
use kubeforward.Base.Int.{ℤ, pos}
use kubeforward.Config.{PortMapping}
use kubeforward.Plan.Forwards.{resolve_forward}
use kubeforward.Session.{ManagedForwardProcess, ManagedSession, RuntimeState}
use kubeforward.Cli.Requests.{Result, done, PreparedForwardLaunch}
use kubeforward.Cli.Launch.{validate_sessions_support_rollback}
use kubeforward.Cli.Sessions.{matching_sessions, remove_matching_sessions}
use kubeforward.Cli.Start.{
  make_managed_session, new_process, ready_error, start_all, start_managed_session,
}
use kubeforward.Cli.Up.{
  Socket, UpResult, running, preflight, check_port_availability, check_ports_available,
  check_plan_ports_available, start_and_save, replace_and_start, up,
}
use kubeforward.Cli.Up.Laws.{Settles, up-Settles, up-matching_sessions}
use kubeforward.Tests.Running.{obedient, prod_environment}
use kubeforward.Tests.Starting.{launch, always_starts}

abbrev pub free_port : PortMapping → List ℤ → Socket
free_port port st = record { socket = none; inet_pton = true; bind = none }

abbrev pub no_state : RuntimeState
no_state = record { sessions = [] }

abbrev pub saves : RuntimeState → Option String
saves state = none

abbrev pub launches : Result (List PreparedForwardLaunch)
launches = done (launch "web" ∷ [])

abbrev pub is_ready : ManagedForwardProcess → List ℤ → Option String × List ℤ
is_ready process st = (none, st)

abbrev pub as_it_is : String → String
as_it_is message = message

abbrev upped : UpResult
upped =
    (up obedient free_port "kubeforward.yaml" prod_environment true launches no_state none none
      always_starts false is_ready saves "" "" as_it_is []).0

abbrev pub upped_session : ManagedSession
upped_session = record (make_managed_session "kubeforward.yaml" prod_environment true "" "") {
  forwards = (new_process "prod" (launch "web")).process (pos 41) ∷ [];
}

up-Settles_example :
    Settles obedient free_port "kubeforward.yaml" prod_environment true launches no_state none none
      always_starts false is_ready saves "" "" as_it_is upped
up-Settles_example =
    up-Settles obedient free_port "kubeforward.yaml" prod_environment true launches no_state none
      none always_starts false is_ready saves "" "" as_it_is []

pub runs : upped ≡ running upped_session (record { sessions = upped_session ∷ [] })
unfolding up preflight check_plan_ports_available check_ports_available check_port_availability
    replace_and_start start_and_save start_managed_session start_all ready_error
    make_managed_session new_process validate_sessions_support_rollback matching_sessions
    remove_matching_sessions resolve_forward
runs = refl

up-matching_sessions_example :
    (matching_sessions (record { sessions = upped_session ∷ [] }) "kubeforward.yaml" "prod"
      ≡ upped_session ∷ [])
    × (saves (record { sessions = upped_session ∷ [] }) ≡ none)
up-matching_sessions_example =
    up-matching_sessions obedient free_port "kubeforward.yaml" prod_environment true launches
      no_state none none always_starts false is_ready saves "" "" as_it_is upped_session
      (record { sessions = upped_session ∷ [] }) [] refl runs
