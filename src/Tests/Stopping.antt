-- ===== src/Tests/Stopping.antt =====
-- A process group that goes on after SIGTERM.
use kubeforward.Base.{
  ◌≡◌, refl, Bool, true, false, Option, none, some, List, [], ◌∷◌, if◌then◌else◌, arith,
}
use kubeforward.Base.Int.{pos, int_eq}
use kubeforward.Runner.{
  Signal, probe, sigkill, Call, kill_group, Errno, esrch, Answers, is_process_group_alive,
  is_group_gone, wait_from, wait_for_process_group_exit, success, stop_killed, send_sigkill,
  stop_terminated, posix_stop,
}
use kubeforward.Runner.Stop.{Ends, posix_stop-Ends}

abbrev was_killed : List Call → Bool
was_killed [] = false
was_killed (kill_group group sigkill ∷ calls) = true
was_killed (_ ∷ calls) = was_killed calls

abbrev answer : Signal → List Call → Option Errno
answer probe calls = if was_killed calls then some esrch else none
answer _ calls = none

abbrev stubborn : Answers
stubborn = record {
  kill = λ group signal calls. answer signal calls;
  reaped = λ group calls. false;
  strerror = λ errno. "";
}

posix_stop-Ends_example : Ends stubborn (pos 41) 4000 (posix_stop stubborn 31 (pos 41) [])
posix_stop-Ends_example = posix_stop-Ends stubborn 31 (pos 41) (omega arith)

killed_in_the_end : (posix_stop stubborn 31 (pos 41) []).0 ≡ success
unfolding posix_stop stop_terminated send_sigkill stop_killed wait_for_process_group_exit wait_from
    is_group_gone is_process_group_alive
killed_in_the_end = refl
