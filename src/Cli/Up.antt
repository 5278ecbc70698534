-- ===== src/Cli/Up.antt =====
-- src/cli/cli.cpp: `up` from the loaded state to the session that it saved. What `socket`, `inet_pton`
-- and `bind` answer is a parameter, as is what other modules take as one.
pub mod Laws
use kubeforward.Base.{
  ℕ, String, ◌<>◌, Bool, true, false, not, ◌&&◌, Option, none, some, List, [], ◌∷◌, ◌++◌,
  if◌then◌else◌, empty,
}
use kubeforward.Base.Int.{ℤ, to_string_ℤ}
use kubeforward.Config.{PortMapping}
use kubeforward.Plan.Types.{ResolvedForward, ResolvedEnvironment}
use kubeforward.Session.{ManagedForwardProcess, ManagedSession, RuntimeState}
use kubeforward.Conflicts.{port_bind_address}
use kubeforward.Cli.Requests.{Result, done, failed, StartProcessRequest, PreparedForwardLaunch}
use kubeforward.Cli.Launch.{validate_sessions_support_rollback}
use kubeforward.Cli.Sessions.{matching_sessions, remove_matching_sessions}
use kubeforward.Cli.Down.{System, Stopping, stop_session_processes, stop_started_session}
use kubeforward.Cli.Start.{start_managed_session, restore_replaced_sessions}

-- The error of a call on a socket: `EPERM` or `EACCES`, `EADDRINUSE`, or another with its text.
pub data SocketError : Type 0 where
  forbidden in_use : SocketError
  other_error : String → SocketError

pub record Socket : Type 0 where
  pub socket : Option SocketError
  pub inet_pton : Bool
  pub bind : Option SocketError

-- The error, if there is one.
unfoldable pub check_port_availability : Socket → PortMapping → Option String
check_port_availability calls port = elim calls.socket [
  | some forbidden ↦ none
  | some _ ↦ some "failed to create socket for preflight"
  | none ↦
      if not calls.inet_pton
      then some ("invalid bind address '" <> port_bind_address port <> "'")
      else elim calls.bind [
        | none ↦ none
        | some forbidden ↦ none
        | some in_use ↦ some (
            "local port "
            <> to_string_ℤ port.local_port
            <> " is already in use on "
            <> port_bind_address port)
        | some (other_error text) ↦ some (
            "failed to preflight port "
            <> to_string_ℤ port.local_port
            <> " on "
            <> port_bind_address port
            <> ": "
            <> text)
      ]
]

-- How `up` ends: with the lines of its error, or with a session that runs and the state it saved.
pub data UpResult : Type 0 where
  refused : List String → UpResult
  running : ManagedSession → RuntimeState → UpResult

module _ (S : System) (sockets : PortMapping → S.State → Socket) where
  -- The first error of the ports, if there is one.
  unfoldable pub check_ports_available : List PortMapping → S.State → Option String
  unfolding check_port_availability
  check_ports_available [] st = none
  check_ports_available (port ∷ ports) st =
      let rest = check_ports_available ports st in
      elim (check_port_availability (sockets port st) port) [
        | some error ↦ some error
        | none ↦ rest
      ]

  unfoldable pub check_plan_ports_available : List ResolvedForward → S.State → Option String
  unfolding check_ports_available
  check_plan_ports_available [] st = none
  check_plan_ports_available (forward ∷ forwards) st =
      let rest = check_plan_ports_available forwards st in
      elim (check_ports_available forward.ports st) [ some error ↦ some error | none ↦ rest ]

  -- The loop that stops the sessions to replace.
  unfoldable pub stop_replaced : List ManagedSession → Stopping S → Stopping S
  stop_replaced [] s = s
  stop_replaced (session ∷ sessions) s = stop_replaced sessions (stop_session_processes S session s)

  -- The path of the config, the environment of the plan, `--daemon`, the launches and the state that
  -- was loaded; the errors of the conflict check and of the search for kubectl; the calls.
  module _ (path : String) (resolved_env : ResolvedEnvironment) (daemon : Bool)
      (prepared_launches : Result (List PreparedForwardLaunch)) (state : RuntimeState)
      (conflict kubectl_error : Option String)
      (start : StartProcessRequest → S.State → Result ℤ × S.State) (skip_readiness_check : Bool)
      (wait_for_forward_ready : ManagedForwardProcess → S.State → Option String × S.State)
      (save : RuntimeState → Option String) (id_time utc_now : String) where
    abbrev pub existing_sessions : List ManagedSession
    existing_sessions = matching_sessions state path resolved_env.name

    -- What is checked before anything is stopped.
    unfoldable pub preflight : S.State → Option String
    unfolding check_plan_ports_available
    preflight st = if S.use_noop_runner then none else elim conflict [
      | some error ↦ some error
      | none ↦ elim kubectl_error [
        | some error ↦ some error
        | none ↦
            if empty existing_sessions
            then check_plan_ports_available resolved_env.forwards st
            else none
      ]
    ]

    -- What is checked when the sessions to replace are stopped.
    unfoldable pub preflight_after_stopping : S.State → Option String
    preflight_after_stopping st =
        if S.use_noop_runner then none else check_plan_ports_available resolved_env.forwards st

    -- The lines of an error, after the restoring of the replaced sessions if there are any.
    unfoldable pub roll_back : String → S.State → UpResult × S.State
    roll_back error st =
        if empty existing_sessions
        then (refused (("up: " <> error) ∷ []), st)
        else (let (outcome, st') =
              restore_replaced_sessions S start skip_readiness_check wait_for_forward_ready save
                state existing_sessions st in
            elim outcome [
              | failed restore_error ↦ (
                refused (("up: " <> error) ∷ ("up: rollback failed: " <> restore_error) ∷ []),
                st',
              )
              | done _ ↦
                  (refused (("up: " <> error) ∷ "up: previous session was restored" ∷ []), st')
            ])

    abbrev pub next_state : ManagedSession → RuntimeState
    next_state session = record {
      sessions = (remove_matching_sessions state path resolved_env.name).sessions ++ session ∷ [];
    }

    -- `error_of_save` puts the path of the state file into the message.
    module _ (error_of_save : String → String) where
      unfoldable pub start_and_save : List PreparedForwardLaunch → S.State → UpResult × S.State
      unfolding roll_back
      start_and_save launches st =
          let (outcome, st') =
            start_managed_session S start skip_readiness_check wait_for_forward_ready path
              resolved_env daemon launches id_time utc_now st in
          elim outcome [
            | failed start_error ↦ roll_back start_error st'
            | done session ↦ elim (save (next_state session)) [
              | none ↦ (running session (next_state session), st')
              | some save_error ↦
                  roll_back (error_of_save save_error) (stop_started_session S session st').1
            ]
          ]

      -- After the preflight: the sessions to replace are stopped.
      unfoldable pub replace_and_start : List PreparedForwardLaunch → S.State → UpResult × S.State
      unfolding start_and_save
      replace_and_start launches st =
          let s =
            stop_replaced existing_sessions
              (record { stop_failed = false; stopped_processes = 0; system = st }) in
          if empty existing_sessions
          then start_and_save launches st
          else if s.stop_failed
          then (refused [], s.system)
          else elim (preflight_after_stopping s.system) [
            | none ↦ start_and_save launches s.system
            | some error ↦
                roll_back ("preflight failed after stopping existing session: " <> error) s.system
          ]

      unfoldable pub up : S.State → UpResult × S.State
      unfolding replace_and_start preflight
      up st = elim (validate_sessions_support_rollback existing_sessions) [
        | some error ↦ (refused (("up: " <> error) ∷ []), st)
        | none ↦ elim prepared_launches [
          | failed error ↦ (refused (("up: " <> error) ∷ []), st)
          | done launches ↦ elim (preflight st) [
            | some error ↦ (refused (("up: preflight failed: " <> error) ∷ []), st)
            | none ↦ replace_and_start launches st
          ]
        ]
      ]
