-- ===== src/Tests/Waiting.antt =====
-- A process that listens after a while, and texts for the shell.
use kubeforward.Base.{
  ℕ, zero, suc, ◌≤◌, ◌≡◌, refl, String, Option, none, some, [], ◌∷◌, if◌then◌else◌, arith, true,
  false, leb,
}
use kubeforward.Base.Int.{ℤ, pos}
use kubeforward.Cli.Ready.{
  Probing, startup_timeout_ms, shell_quote, wait_for_forward_ready, wait_ready_from, check_ready,
  poll_process_exit_status, probe_tcp_port_listening_for_readiness, command_produces_output,
  resolve_executable_path, find_in_path,
}
use kubeforward.Cli.Ready.Bounds.{
  startup_timeout_ms_bounds, Answers, wait_for_forward_ready-Answers,
}
use kubeforward.Cli.Ready.Quote.{outside, shell_read, shell_read-shell_quote}
use kubeforward.Tests.Running.{web_process}

abbrev two_seconds : String → Option ℤ
two_seconds text = some (pos 2000)

startup_timeout_ms_bounds_example :
    (100 ≤ startup_timeout_ms (some "2000") two_seconds)
    × (startup_timeout_ms (some "2000") two_seconds ≤ 600000)
startup_timeout_ms_bounds_example = startup_timeout_ms_bounds (some "2000") two_seconds

keeps_a_timeout_in_range : startup_timeout_ms (some "2000") two_seconds ≡ 2000
unfolding startup_timeout_ms
keeps_a_timeout_in_range = refl

shell_read-shell_quote_example : shell_read outside (shell_quote "it's; rm") ≡ some "it's; rm"
shell_read-shell_quote_example = shell_read-shell_quote "it's; rm"

quotes_a_quote : shell_quote "it's" ≡ "'it'\\''s'"
unfolding shell_quote
quotes_a_quote = refl

-- The number of sleeps is the state, and `lsof` prints a pid from the second on.
abbrev pub slow : Probing
slow = record {
  State = ℕ;
  access = λ path. true;
  path_entries = some ("/usr/bin" ∷ []);
  join = λ entry name. name;
  is_absolute = λ path. false;
  has_path_separator = λ path. false;
  popen = λ command sleeps. (if leb 2 sleeps then some "41\n" else none, sleeps);
  waitpid = λ pid sleeps. (none, sleeps);
  sleep_for = λ ms sleeps. suc sleeps;
}

wait_for_forward_ready-Answers_example :
    Answers slow (startup_timeout_ms (some "2000") two_seconds) web_process 0 zero (
      wait_for_forward_ready slow
        (startup_timeout_ms (some "2000") two_seconds)
        web_process
        6002
        zero)
wait_for_forward_ready-Answers_example =
    wait_for_forward_ready-Answers slow (some "2000") two_seconds web_process 6002 zero
      (ground arith)

ready_after_two_sleeps :
    wait_for_forward_ready slow 2000 web_process 4 zero ≡ (some none, suc (suc zero))
unfolding wait_for_forward_ready wait_ready_from check_ready poll_process_exit_status
    probe_tcp_port_listening_for_readiness command_produces_output resolve_executable_path
    find_in_path shell_quote
ready_after_two_sleeps = refl
