-- ===== src/Runner/Child.antt =====
-- src/runtime/process_runner.cpp: what the child of `PosixProcessRunner::Start` does between `fork` and
-- `execvp`. Whether a system call succeeds, and what `errno` then says, are functions of the calls
-- that the child made before, newest first.
pub mod Wiring
pub mod Laws
use kubeforward.Base.{
  ℕ, String, Bool, true, false, not, ◌&&◌, Option, none, some, List, [], ◌∷◌, if◌then◌else◌,
  is_empty,
}
use kubeforward.Base.Int.{ℤ}
use kubeforward.Cli.Requests.{Result, StartProcessRequest}
use kubeforward.Runner.{Starting, posix_start}

abbrev pub stdin_fileno : ℕ
stdin_fileno = 0

abbrev pub stdout_fileno : ℕ
stdout_fileno = 1

abbrev pub stderr_fileno : ℕ
stderr_fileno = 2

pub data ChildCall : Type 0 where
  -- `close(exec_pipe[0])`, and `setpgid(0, 0)`, whose answers are not looked at
  close_pipe setpgid : ChildCall
  chdir : String → ChildCall
  -- `open` of `/dev/null` for reading, and of the sink for appending
  open_input : ChildCall
  open_output : String → ChildCall
  dup2 : ℕ → ℕ → ChildCall
  close : ℕ → ChildCall
  execvp : List String → ChildCall
  -- `write` of a saved `errno` to the pipe
  write_errno : ChildCall

-- `opened` is the descriptor that an `open` gives, if it succeeds. `errno` is given as the text that
-- `strerror` has for it.
pub record ChildAnswers : Type 0 where
  pub opened : ChildCall → List ChildCall → Option ℕ
  pub succeeds : ChildCall → List ChildCall → Bool
  pub errno : List ChildCall → String

-- The child becomes a program, or exits with 127, with what it wrote to the pipe.
pub data ChildEnd : Type 0 where
  becomes : List String → ChildEnd
  exits : Option String → ChildEnd

abbrev pub null_device : String
null_device = "/dev/null"

abbrev pub sink_path : StartProcessRequest → String
sink_path request = if is_empty request.log_path then null_device else request.log_path

-- A descriptor is closed if it was opened.
abbrev pub close_if : Option ℕ → List ChildCall → List ChildCall
close_if none calls = calls
close_if (some fd) calls = close fd ∷ calls

-- What the parent reads. It reads nothing if `read` fails, if the child's `write` failed, or once
-- `execvp` has closed the pipe.
abbrev pub reported : Bool → ChildEnd → Option String
reported false ended = none
reported true (becomes argv) = none
reported true (exits written) = written

module _ (os : ChildAnswers) where
  unfoldable pub report : String → List ChildCall → ChildEnd × List ChildCall
  report child_errno calls = (
    exits (if os.succeeds write_errno calls then some child_errno else none),
    write_errno ∷ calls,
  )

  unfoldable pub exec_child : StartProcessRequest → List ChildCall → ChildEnd × List ChildCall
  unfolding report
  exec_child request calls =
      let calls' = execvp request.argv ∷ calls in
      if os.succeeds (execvp request.argv) calls
      then (becomes request.argv, calls')
      else report (os.errno calls') calls'

  -- A `dup2` failed.
  unfoldable pub abandon : ℕ → ℕ → List ChildCall → ChildEnd × List ChildCall
  unfolding report
  abandon in_fd out_fd calls = report (os.errno calls) (close out_fd ∷ close in_fd ∷ calls)

  -- With both files open.
  unfoldable pub redirect_child :
      StartProcessRequest → ℕ → ℕ → List ChildCall → ChildEnd × List ChildCall
  unfolding exec_child abandon
  redirect_child request in_fd out_fd calls =
      let in_calls = dup2 in_fd stdin_fileno ∷ calls in
      let out_calls = dup2 out_fd stdout_fileno ∷ in_calls in
      let err_calls = dup2 out_fd stderr_fileno ∷ out_calls in
      if not (os.succeeds (dup2 in_fd stdin_fileno) calls)
      then abandon in_fd out_fd in_calls
      else if not (os.succeeds (dup2 out_fd stdout_fileno) in_calls)
      then abandon in_fd out_fd out_calls
      else if not (os.succeeds (dup2 out_fd stderr_fileno) out_calls)
      then abandon in_fd out_fd err_calls
      else exec_child request (close out_fd ∷ close in_fd ∷ err_calls)

  -- In daemon mode.
  unfoldable pub detach_child : StartProcessRequest → List ChildCall → ChildEnd × List ChildCall
  unfolding redirect_child report
  detach_child request calls =
      let in_calls = open_input ∷ calls in
      let out_calls = open_output (sink_path request) ∷ in_calls in
      let out_fd = os.opened (open_output (sink_path request)) in_calls in
      elim (os.opened open_input calls) [
        | none ↦ report (os.errno out_calls) (close_if out_fd out_calls)
        | some in_fd ↦ elim out_fd [
          | none ↦ report (os.errno out_calls) (close in_fd ∷ out_calls)
          | some out_fd ↦ redirect_child request in_fd out_fd out_calls
        ]
      ]

  -- In the directory of the request.
  unfoldable pub child_there : StartProcessRequest → List ChildCall → ChildEnd × List ChildCall
  unfolding detach_child exec_child
  child_there request calls =
      if request.daemon then detach_child request calls else exec_child request calls

  unfoldable pub child : StartProcessRequest → ChildEnd × List ChildCall
  unfolding child_there report
  child request =
      let calls = setpgid ∷ close_pipe ∷ [] in
      let calls' = chdir request.cwd ∷ calls in
      if is_empty request.cwd
      then child_there request calls
      else if os.succeeds (chdir request.cwd) calls
      then child_there request calls'
      else report (os.errno calls') calls'

  -- `Start` in the parent, with what its child reports; `reads` is whether the parent's `read` of
  -- the pipe succeeds.
  unfoldable pub start : Bool → Starting → StartProcessRequest → Result ℤ
  unfolding posix_start child
  start reads calls request =
      posix_start (record calls { child_error = reported reads (child request).0 }) request
