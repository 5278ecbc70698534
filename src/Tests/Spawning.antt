-- ===== src/Tests/Spawning.antt =====
-- The child of a `Start` in daemon mode.
use mathlib.Core.Option.{some-injective}
use kubeforward.Base.{
  ℕ, ◌<◌, eqb, Option, some, List, arith, ◌≡◌, refl, Bool, true, false, none, [], ◌∷◌, ◌↔◌,
}
use kubeforward.Base.Int.{pos}
use kubeforward.Cli.Requests.{done, failed, StartProcessRequest}
use kubeforward.Runner.{Starting, posix_start, spawn}
use kubeforward.Runner.Child.{
  ChildCall, open_input, open_output, execvp, ChildAnswers, report, exec_child, redirect_child,
  detach_child, child_there, child, start,
}
use kubeforward.Runner.Child.Laws.{HasStarted, start-HasStarted}

abbrev forward_web : StartProcessRequest
forward_web = record {
  argv = "kubectl" ∷ "port-forward" ∷ "service/web" ∷ "8080:80" ∷ [];
  cwd = "/work";
  daemon = true;
  log_path = "/tmp/web.log";
}

abbrev descriptor : ChildCall → Option ℕ
descriptor open_input = some 5
descriptor _ = some 6

abbrev willing : ChildAnswers
willing = record {
  opened = λ call calls. descriptor call;
  succeeds = λ call calls. true;
  errno = λ calls. "";
}

apart :
    (calls : List ChildCall) (in_fd out_fd : ℕ)
    → descriptor open_input ≡ some in_fd
    → descriptor (open_output "/tmp/web.log") ≡ some out_fd
    → (2 < in_fd) × (2 < out_fd) × (eqb in_fd out_fd ≡ false)
apart calls in_fd out_fd i o =
    let same_in = some-injective 5 in_fd i in
    let same_out = some-injective 6 out_fd o in
    (omega (arith, same_in), omega (arith, same_out), rw (← same_in, ← same_out) refl)

abbrev parent_calls : Starting
parent_calls = record {
  create_directories = none;
  pipe = true;
  fcntl = true;
  fork = pos 41;
  child_error = none;
}

start-HasStarted_example :
    (start willing true parent_calls forward_web ≡ done (pos 41))
    ↔ HasStarted willing true forward_web parent_calls (pos 41)
start-HasStarted_example = start-HasStarted willing forward_web apart true parent_calls (pos 41)

gives_the_pid : start willing true parent_calls forward_web ≡ done (pos 41)
unfolding start posix_start spawn child child_there detach_child redirect_child exec_child
gives_the_pid = refl

abbrev is_not_exec : ChildCall → Bool
is_not_exec (execvp argv) = false
is_not_exec _ = true

abbrev without_kubectl : ChildAnswers
without_kubectl = record willing {
  succeeds = λ call calls. is_not_exec call;
  errno = λ calls. "No such file or directory";
}

reports_a_missing_program :
    start without_kubectl true parent_calls forward_web
    ≡ failed "failed to exec 'kubectl': No such file or directory"
unfolding start posix_start spawn child child_there detach_child redirect_child exec_child report
reports_a_missing_program = refl

loses_a_report : start without_kubectl false parent_calls forward_web ≡ done (pos 41)
unfolding start posix_start spawn child child_there detach_child redirect_child exec_child report
loses_a_report = refl
