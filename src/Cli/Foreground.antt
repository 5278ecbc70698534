-- ===== src/Cli/Foreground.antt =====
-- src/cli/cli.cpp: `RunForegroundSession`. The signal that the handler noted, `waitpid` and sleeping
-- on the system's state are parameters, and `SaveState` gives its error, if there is one.
pub mod Exit
pub mod Watch
use kubeforward.Base.{
  ℕ, zero, suc, ◌+◌, Bool, true, false, not, ◌&&◌, Option, none, some, List, [], ◌∷◌, ◌++◌,
  if◌then◌else◌, String, contains, empty, eqb, ltb, length,
}
use kubeforward.Base.Int.{ℤ, int_eq}
use kubeforward.Session.{ManagedForwardProcess, ManagedSession, RuntimeState}
use kubeforward.Cli.Ready.{WaitStatus, exited, signaled, unknown_status}
use kubeforward.Cli.Sessions.{remove_matching_sessions}
use kubeforward.Cli.Down.{System, stop_started_session}

-- `g_foreground_signal`, in which 0 is no signal.
pub data ForegroundSignal : Type 0 where
  no_signal sigint sigterm other_signal : ForegroundSignal

abbrev pub is_signal : ForegroundSignal → Bool
is_signal no_signal = false
is_signal _ = true

unfoldable pub exit_code_from_signal : ForegroundSignal → ℕ
exit_code_from_signal sigint = 130
exit_code_from_signal sigterm = 143
exit_code_from_signal _ = 2

pub record ForegroundExitEvent : Type 0 where
  pub pid : ℤ
  pub status : WaitStatus
  pub forward_name : String

-- `WIFEXITED(status) && WEXITSTATUS(status) == 0`
abbrev pub succeeded : WaitStatus → Bool
succeeded (exited code) = eqb code 0
succeeded _ = false

abbrev pub all_succeeded : List ForegroundExitEvent → Bool
all_succeeded [] = true
all_succeeded (event ∷ events) = succeeded event.status && all_succeeded events

-- How the function ends; `front()` of an empty vector is undefined.
pub data ForegroundEnd : Type 0 where
  exits : ℕ → ForegroundEnd
  undefined_front out_of_fuel : ForegroundEnd

-- From `first_exited_forward` on.
unfoldable pub exit_code_of_first : ℕ → List ForegroundExitEvent → ForegroundEnd
exit_code_of_first total_forwards [] = undefined_front
exit_code_of_first total_forwards (first ∷ events) =
    if ltb (length (first ∷ events)) total_forwards
    then exits 2
    else if succeeded first.status
    then exits 0
    else exits 2

-- From `SaveState` on.
unfoldable pub foreground_end :
    Option String → ForegroundSignal → ℕ → List ForegroundExitEvent → ForegroundEnd
unfolding exit_code_of_first exit_code_from_signal
foreground_end save_error signal total_forwards exited_forwards = elim save_error [
  | some _ ↦ exits 2
  | none ↦
      if is_signal signal
      then exits (exit_code_from_signal signal)
      else if eqb (length exited_forwards) total_forwards && all_succeeded exited_forwards
      then exits 0
      else exit_code_of_first total_forwards exited_forwards
]

abbrev pub cleaned_state : RuntimeState → ManagedSession → RuntimeState
cleaned_state state_snapshot session =
    remove_matching_sessions state_snapshot session.config_path session.environment

module _ (S : System) (signal : S.State → ForegroundSignal)
    (waitpid : ℤ → S.State → Option WaitStatus × S.State) (sleep_for : ℕ → S.State → S.State) where
  -- What the loop changes.
  pub record Watching : Type 0 where
    pub exited_pids : List ℤ
    pub exited_forwards : List ForegroundExitEvent
    pub system : S.State

  -- One forward.
  unfoldable pub poll_forward : ManagedForwardProcess → Watching → Watching
  poll_forward forward w =
      if contains w.exited_pids forward.pid
      then w
      else (let (status, system) = waitpid forward.pid w.system in
          elim status [
            | none ↦ record w { system = system }
            | some exit_status ↦ record {
              exited_pids = forward.pid ∷ w.exited_pids;
              exited_forwards =
                  w.exited_forwards
                  ++ record {
                    pid = forward.pid;
                    status = exit_status;
                    forward_name = forward.forward_name;
                  }
                    ∷ [];
              system = system;
            }
          ])

  -- The inner loop.
  unfoldable pub poll_forwards : List ManagedForwardProcess → Watching → Watching
  unfolding poll_forward
  poll_forwards [] w = w
  poll_forwards (forward ∷ forwards) w = poll_forwards forwards (poll_forward forward w)

  abbrev pub sleep_poll_interval : Watching → Watching
  sleep_poll_interval w = record w { system = sleep_for 100 w.system }

  -- The outer loop; `none` is out of fuel.
  unfoldable pub watch : ℕ → List ManagedForwardProcess → Watching → Option Watching
  watch zero forwards w = none
  watch (suc fuel) forwards w =
      let polled = poll_forwards forwards w in
      let rest = watch fuel forwards (sleep_poll_interval polled) in
      if is_signal (signal w.system)
      then some w
      else if empty polled.exited_forwards
      then rest
      else some polled

  abbrev pub nothing_exited : S.State → Watching
  nothing_exited st = record { exited_pids = []; exited_forwards = []; system = st }

  -- After the loop.
  unfoldable pub finish_foreground :
      (RuntimeState → Option String)
      → RuntimeState
      → ManagedSession
      → Watching
      → ForegroundEnd × S.State
  unfolding foreground_end
  finish_foreground save state_snapshot session w =
      let st' = (stop_started_session S session w.system).1 in
      (
        foreground_end (save (cleaned_state state_snapshot session)) (signal st')
            (length session.forwards) w.exited_forwards,
        st',
      )

  unfoldable pub run_foreground_session :
      ℕ
      → (RuntimeState → Option String)
      → RuntimeState
      → ManagedSession
      → S.State
      → ForegroundEnd × S.State
  unfolding watch finish_foreground
  run_foreground_session fuel save state_snapshot session st =
      elim (watch fuel session.forwards (nothing_exited st)) [
        | none ↦ (out_of_fuel, st)
        | some w ↦ finish_foreground save state_snapshot session w
      ]
