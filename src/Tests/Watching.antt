-- ===== src/Tests/Watching.antt =====
-- A foreground session whose forwards exit.
use kubeforward.Base.{
  ℕ, ◌≡◌, ◌↔◌, refl, String, true, Option, none, some, List, [], ◌∷◌, length, arith,
}
use kubeforward.Base.Int.{ℤ, pos}
use kubeforward.Cli.Ready.{WaitStatus, exited}
use kubeforward.Cli.Foreground.{
  ForegroundSignal, no_signal, ForegroundExitEvent, exits, foreground_end, exit_code_of_first,
  poll_forwards, poll_forward, nothing_exited, run_foreground_session,
}
use kubeforward.Cli.Foreground.Exit.{first_succeeded, foreground_end_iff}
use kubeforward.Cli.Foreground.Watch.{is_noisy, rounds, run_foreground_session-exits}
use kubeforward.Tests.Running.{obedient, dev_session, running}
use kubeforward.Tests.Upping.{saves}

abbrev exit_of : String → ℕ → ForegroundExitEvent
exit_of forward_name exit_code = record {
  pid = pos 41;
  status = exited exit_code;
  forward_name = forward_name;
}

-- The second forward failed.
abbrev two_exits : List ForegroundExitEvent
two_exits = exit_of "web" 0 ∷ exit_of "api" 1 ∷ []

abbrev no_error : Option String
no_error = none

foreground_end_iff_example : (foreground_end no_error no_signal 2 two_exits ≡ exits 0) ↔ (
    (no_error ≡ none)
    × (no_signal ≡ no_signal)
    × (length two_exits ≡ 2)
    × (first_succeeded two_exits ≡ true))
foreground_end_iff_example = foreground_end_iff no_error no_signal 2 two_exits refl

hides_the_second : foreground_end none no_signal 2 two_exits ≡ exits 0
unfolding foreground_end exit_code_of_first
hides_the_second = refl

abbrev quiet : List ℤ → ForegroundSignal
quiet st = no_signal

abbrev exits_at_once : ℤ → List ℤ → Option WaitStatus × List ℤ
exits_at_once pid st = (some (exited 0), st)

abbrev no_sleep : ℕ → List ℤ → List ℤ
no_sleep ms st = st

finds_an_exit :
    is_noisy obedient quiet exits_at_once no_sleep dev_session.forwards (
      rounds obedient quiet exits_at_once no_sleep dev_session.forwards 0
        (nothing_exited obedient quiet exits_at_once no_sleep []))
    ≡ true
unfolding poll_forwards poll_forward
finds_an_exit = refl

run_foreground_session-exits_example :
    (code : ℕ) × ((run_foreground_session obedient quiet exits_at_once no_sleep 1 saves running
        dev_session []).0
      ≡ exits code)
run_foreground_session-exits_example =
    run_foreground_session-exits obedient quiet exits_at_once no_sleep (λ pid st h. h) saves running
      dev_session [] 0 1 (omega arith) finds_an_exit
