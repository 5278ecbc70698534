-- ===== src/Runner.antt =====
-- src/runtime/process_runner.cpp: starting a process and stopping its group. What the system calls
-- answer is a parameter: a function of the calls that were made before, newest first.
pub mod Stop
pub mod Child
use kubeforward.Base.{
  ℕ, zero, suc, ◌+◌, String, ◌<>◌, Bool, true, false, not, ◌&&◌, Option, none, some, List, [], ◌∷◌,
  if◌then◌else◌, is_empty, ltb,
}
use kubeforward.Base.Int.{ℤ, pos, negsuc, leb_ℤ, to_string_ℤ}
use kubeforward.Cli.Requests.{Result, done, failed, StartProcessRequest}

-- Signal 0 only probes.
pub data Signal : Type 0 where
  probe sigterm sigkill : Signal

pub data Call : Type 0 where
  -- `kill(-pgid, signal)`
  kill_group : ℤ → Signal → Call
  -- `waitpid(pgid, nullptr, WNOHANG)`
  waitpid : ℤ → Call
  -- `sleep_for`, in milliseconds
  sleep_for : ℕ → Call

pub data Errno : Type 0 where
  esrch eperm : Errno
  other_errno : String → Errno

-- The answers: the error of a `kill`, if there is one, and whether `waitpid` gave its pid back, which
-- is that of the group's leader.
pub record Answers : Type 0 where
  pub kill : ℤ → Signal → List Call → Option Errno
  pub reaped : ℤ → List Call → Bool
  pub strerror : Errno → String

abbrev pub is_eperm : Errno → Bool
is_eperm eperm = true
is_eperm _ = false

-- How a `Stop` ends: its error if it has one.
pub data Stopped : Type 0 where
  success : Stopped
  error : String → Stopped
  out_of_fuel : Stopped

module _ (os : Answers) where
  unfoldable pub is_process_group_alive : ℤ → List Call → Bool × List Call
  is_process_group_alive pgid calls = if leb_ℤ pgid (pos 0) then (false, calls) else (
    elim (os.kill pgid probe calls) [ none ↦ true | some errno ↦ is_eperm errno ],
    kill_group pgid probe ∷ calls,
  )

  -- `waitpid` gives the leader back, or nothing in the group is alive.
  unfoldable pub is_group_gone : ℤ → List Call → Bool × List Call
  unfolding is_process_group_alive
  is_group_gone pgid calls =
      if os.reaped pgid calls
      then (true, waitpid pgid ∷ calls)
      else (let (alive, calls') = is_process_group_alive pgid (waitpid pgid ∷ calls) in
          (not alive, calls'))

  -- The loop, from `waited_ms` on; `none` is out of fuel.
  unfoldable pub wait_from : ℕ → ℕ → ℤ → ℕ → List Call → Option Bool × List Call
  wait_from zero waited_ms pgid timeout_ms calls = (none, calls)
  wait_from (suc fuel) waited_ms pgid timeout_ms calls =
      let (gone, calls') = is_group_gone pgid calls in
      let rest = wait_from fuel (waited_ms + 100) pgid timeout_ms (sleep_for 100 ∷ calls') in
      if ltb waited_ms timeout_ms && not gone then rest else (some gone, calls')

  unfoldable pub wait_for_process_group_exit : ℕ → ℤ → ℕ → List Call → Option Bool × List Call
  unfolding wait_from
  wait_for_process_group_exit fuel pgid timeout_ms calls =
      if leb_ℤ pgid (pos 0) then (some true, calls) else wait_from fuel 0 pgid timeout_ms calls

  -- After the SIGKILL.
  unfoldable pub stop_killed : ℕ → ℤ → List Call → Stopped × List Call
  unfolding wait_for_process_group_exit
  stop_killed fuel pgid calls =
      let (gone, calls') = wait_for_process_group_exit fuel pgid 1000 calls in
      elim gone [
        | none ↦ (out_of_fuel, calls')
        | some true ↦ (success, calls')
        | some false ↦
            (error ("process group " <> to_string_ℤ pgid <> " did not exit after SIGKILL"), calls')
      ]

  unfoldable pub send_sigkill : ℕ → ℤ → List Call → Stopped × List Call
  unfolding stop_killed
  send_sigkill fuel pgid calls =
      let calls' = kill_group pgid sigkill ∷ calls in
      elim (os.kill pgid sigkill calls) [
        | none ↦ stop_killed fuel pgid calls'
        | some esrch ↦ stop_killed fuel pgid calls'
        | some errno ↦ (
          error (
              "failed to send SIGKILL to process group "
              <> to_string_ℤ pgid
              <> ": "
              <> os.strerror errno),
          calls',
        )
      ]

  -- After the SIGTERM.
  unfoldable pub stop_terminated : ℕ → ℤ → List Call → Stopped × List Call
  unfolding wait_for_process_group_exit send_sigkill
  stop_terminated fuel pgid calls =
      let (gone, calls') = wait_for_process_group_exit fuel pgid 3000 calls in
      elim gone [
        | none ↦ (out_of_fuel, calls')
        | some true ↦ (success, calls')
        | some false ↦ send_sigkill fuel pgid calls'
      ]

  -- `PosixProcessRunner::Stop`
  unfoldable pub posix_stop : ℕ → ℤ → List Call → Stopped × List Call
  unfolding stop_terminated
  posix_stop fuel pid calls =
      if leb_ℤ pid (pos 0)
      then (error ("invalid pid " <> to_string_ℤ pid), calls)
      else (let calls' = kill_group pid sigterm ∷ calls in
          elim (os.kill pid sigterm calls) [
            | none ↦ stop_terminated fuel pid calls'
            | some esrch ↦ (success, calls')
            | some errno ↦ (
              error (
                  "failed to send SIGTERM to process group "
                  <> to_string_ℤ pid
                  <> ": "
                  <> os.strerror errno),
              calls',
            )
          ])

-- What the calls of one `Start` answer in the parent: the errors of `create_directories` and of the
-- child before its program runs, whether `pipe` and `fcntl` succeed, and what `fork` gives.
pub record Starting : Type 0 where
  pub create_directories : Option String
  pub pipe : Bool
  pub fcntl : Bool
  pub fork : ℤ
  pub child_error : Option String

-- What the parent reads from the pipe.
abbrev pub exec_result : String → Starting → Result ℤ
exec_result program calls = elim calls.child_error [
  | some text ↦ failed ("failed to exec '" <> program <> "': " <> text)
  | none ↦ done calls.fork
]

-- From the pipe on, for a program's name.
unfoldable pub spawn : Starting → String → Result ℤ
spawn calls program =
    if not calls.pipe
    then failed "failed to create exec status pipe"
    else if not calls.fcntl
    then failed "failed to mark exec status pipe close-on-exec"
    else if not (leb_ℤ (pos 0) calls.fork)
    then failed "failed to fork process"
    else exec_result program calls

-- `PosixProcessRunner::Start`
unfoldable pub posix_start : Starting → StartProcessRequest → Result ℤ
unfolding spawn
posix_start calls request = elim request.argv [
  | [] ↦ failed "process argv cannot be empty"
  | program ∷ _ ↦
      if request.daemon && not (is_empty request.log_path)
      then elim calls.create_directories [
        | some message ↦ failed ("failed to create log directory: " <> message)
        | none ↦ spawn calls program
      ]
      else spawn calls program
]

-- `NoopProcessRunner`, whose state is `next_pid_`.
abbrev pub first_pid : ℕ
first_pid = 12000

unfoldable pub noop_start : StartProcessRequest → ℕ → Result ℕ × ℕ
noop_start request next_pid = elim request.argv [
  | [] ↦ (failed "process argv cannot be empty", next_pid)
  | _ ∷ _ ↦ (done next_pid, suc next_pid)
]

-- The error, if there is one.
unfoldable pub noop_stop : ℤ → Option String
noop_stop pid = if leb_ℤ pid (pos 0) then some ("invalid pid " <> to_string_ℤ pid) else none
