-- ===== src/Cli/Down.antt =====
-- src/cli/cli.cpp: stopping the processes of sessions, as `up` does to replace one and `down` does.
-- The environment variable of `UseNoopRunner`, the process runner's `Stop`, `kill(pid, 0)`, what `ps`
-- prints and `path::filename` are parameters.
pub mod Laws
use Prim.Native.Char.{code}
use kubeforward.Base.{
  ℕ, suc, String, ◌<>◌, Bool, true, false, not, ◌&&◌, ◌||◌, Option, none, some, List, [], ◌∷◌, ◌==◌,
  string_eq, if◌then◌else◌, is_empty, eqb,
}
use kubeforward.Base.Int.{ℤ, pos, leb_ℤ, to_string_ℤ}
use kubeforward.Session.{ManagedForwardProcess, ManagedSession, RuntimeState}
use kubeforward.Loader.Ip.{codes}

-- The operating system, with a state that stopping a process may change.
pub record System : Type 1 where
  pub State : Type 0
  pub use_noop_runner : Bool
  -- `runner.Stop`: `none` is success.
  pub stop : ℤ → State → Option String × State
  -- `kill(pid, 0) != 0 && errno == ESRCH`
  pub is_gone : State → ℤ → Bool
  -- What the command prints; `none` if it cannot run or its status is not 0.
  pub popen : State → String → Option String
  pub filename : String → String

abbrev pub starts_with : List ℕ → List ℕ → Bool
starts_with [] text = true
starts_with (c ∷ cs) [] = false
starts_with (c ∷ cs) (d ∷ ds) = eqb c d && starts_with cs ds

-- `text.find(part) != npos`
abbrev pub has_part : List ℕ → List ℕ → Bool
has_part part [] = starts_with part []
has_part part (d ∷ ds) = starts_with part (d ∷ ds) || has_part part ds

-- The text without the line ends at its end.
abbrev pub trim_line_ends : String → String
trim_line_ends String.[] = ""
trim_line_ends (String.◌∷◌ c s) =
    let rest = trim_line_ends s in
    if is_empty rest && (eqb (code c) 10 || eqb (code c) 13) then "" else String.◌∷◌ c rest

abbrev pub expected_port_mapping : ManagedForwardProcess → String
expected_port_mapping process =
    to_string_ℤ process.local_port <> ":" <> to_string_ℤ process.remote_port

abbrev pub is_signature : String → String → ManagedForwardProcess → Bool
is_signature live_command expected_binary process =
    has_part (codes expected_binary) (codes live_command)
    && (has_part (codes "port-forward") (codes live_command)
        && has_part (codes (expected_port_mapping process)) (codes live_command))

abbrev pub exit_code : Option String → Bool → ℕ
exit_code (some save_error) stop_failed = 2
exit_code none stop_failed = if stop_failed then 2 else 0

module _ (S : System) where
  open S use {State, use_noop_runner, is_gone, popen, filename}

  unfoldable pub read_process_command_line : State → ℤ → Option String
  read_process_command_line st pid =
      if leb_ℤ pid (pos 0)
      then none
      else elim (popen st ("ps -p " <> to_string_ℤ pid <> " -o command=")) [
        | none ↦ none
        | some output ↦
            if is_empty (trim_line_ends output) then none else some (trim_line_ends output)
      ]

  abbrev pub check_signature : ManagedForwardProcess → String → Option String → Option String
  check_signature process binary none =
      some "refusing to signal pid because process identity cannot be verified"
  check_signature process binary (some live_command) =
      if is_empty (filename binary)
      then none
      else if is_signature live_command (filename binary) process
      then none
      else some
          "refusing to signal pid because live command no longer matches managed forward signature"

  -- `none` stands for `true`, `some reason` for `false`.
  unfoldable pub should_signal_managed_process : State → ManagedForwardProcess → Option String
  unfolding read_process_command_line
  should_signal_managed_process st process =
      if use_noop_runner || leb_ℤ process.pid (pos 0) then none else elim process.argv [
        | [] ↦
            some
              "refusing to signal pid because runtime state is missing restart metadata (run 'down' after upgrading)"
        | binary ∷ _ ↦
            if is_gone st process.pid
            then none
            else check_signature process binary (read_process_command_line st process.pid)
      ]

  -- The counters and the system, as the loops change them.
  pub record Stopping : Type 0 where
    pub stop_failed : Bool
    pub stopped_processes : ℕ
    pub system : State

  -- One process: whether it failed, and the counters.
  unfoldable pub stop_process : ManagedForwardProcess → Stopping → Bool × Stopping
  unfolding should_signal_managed_process
  stop_process process s = elim (should_signal_managed_process s.system process) [
    | some reason ↦ (true, record s { stop_failed = true })
    | none ↦
        let (outcome, system) = S.stop process.pid s.system in
        elim outcome [
          | some error ↦ (true, record s { stop_failed = true; system = system })
          | none ↦
              (false, record s { stopped_processes = suc s.stopped_processes; system = system })
        ]
  ]

  -- The loop over the processes; the Boolean is `session_failed`.
  unfoldable pub stop_processes : List ManagedForwardProcess → Bool → Stopping → Bool × Stopping
  unfolding stop_process
  stop_processes [] session_failed s = (session_failed, s)
  stop_processes (process ∷ processes) session_failed s =
      let (failed, s') = stop_process process s in
      stop_processes processes (session_failed || failed) s'

  -- `StopSessionProcesses`
  unfoldable pub stop_session_processes : ManagedSession → Stopping → Stopping
  unfolding stop_processes
  stop_session_processes session s = (stop_processes session.forwards false s).1

  -- `StopStartedSession`
  unfoldable pub stop_started_session : ManagedSession → State → ManagedSession × State
  unfolding stop_session_processes
  stop_started_session session system = (
    record session { forwards = [] },
    (stop_session_processes session
        (record { stop_failed = false; stopped_processes = 0; system = system })).system,
  )

  module _ (normalized_config_path env_filter : String) where
    -- The lambda `stop_session` of `down`: whether the session is to be erased.
    unfoldable pub stop_session : ManagedSession → Stopping → Bool × Stopping
    unfolding stop_processes
    stop_session session s =
        if not (session.config_path == normalized_config_path)
        then (false, s)
        else if not (is_empty env_filter) && not (session.environment == env_filter)
        then (false, s)
        else (let (session_failed, s') = stop_processes session.forwards false s in
            (not session_failed, s'))

    -- `state.sessions.erase(std::remove_if(...), ...)`: the sessions that stay.
    unfoldable pub erase_stopped : List ManagedSession → Stopping → List ManagedSession × Stopping
    unfolding stop_session
    erase_stopped [] s = ([], s)
    erase_stopped (session ∷ sessions) s =
        let (erased, s') = stop_session session s in
        let (rest, s'') = erase_stopped sessions s' in
        (if erased then rest else session ∷ rest, s'')

    -- What `down` does with a state that was loaded: the exit code, the state that it saves, and the
    -- counters. `save` gives the error of `SaveState`, if there is one.
    unfoldable pub down :
        (RuntimeState → Option String) → RuntimeState → State → ℕ × RuntimeState × Stopping
    unfolding erase_stopped
    down save state system =
        let (sessions, s) =
          erase_stopped state.sessions
            (record { stop_failed = false; stopped_processes = 0; system = system }) in
        let state' : RuntimeState = record { sessions = sessions } in
        (exit_code (save state') s.stop_failed, state', s)
