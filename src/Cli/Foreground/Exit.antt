-- ===== src/Cli/Foreground/Exit.antt =====
-- The exit code of a foreground session.
use kubeforward.Base.{
  ℕ, ◌≡◌, ◌↔◌, Bool, true, false, Option, none, some, List, [], ◌∷◌, String, length, ltb, arith,
}
use kubeforward.Cli.Foreground.{
  ForegroundSignal, no_signal, sigint, sigterm, other_signal, exit_code_from_signal,
  ForegroundExitEvent, succeeded, exits, exit_code_of_first, foreground_end,
}

-- The first forward of the list that exited, if any, succeeded.
abbrev pub first_succeeded : List ForegroundExitEvent → Bool
first_succeeded [] = true
first_succeeded (event ∷ events) = succeeded event.status

-- For no more exits than forwards: the exit code of a foreground session is 0 exactly when the state
-- without the session was saved, no signal came, every forward exited, and the first of those that
-- exited succeeded. How the others exited does not matter.
pub foreground_end_iff :
    (save_error : Option String) (signal : ForegroundSignal) (total : ℕ)
    (events : List ForegroundExitEvent)
    → ltb total (length events) ≡ false
    → (foreground_end save_error signal total events ≡ exits 0) ↔ (
        (save_error ≡ none)
        × (signal ≡ no_signal)
        × (length events ≡ total)
        × (first_succeeded events ≡ true))
unfolding foreground_end exit_code_of_first exit_code_from_signal
foreground_end_iff (some e) noted total events h = (λ k. absurd (ground arith), λ k. cc)
foreground_end_iff none sigint total events h = (λ k. absurd (ground arith), λ k. cc)
foreground_end_iff none sigterm total events h = (λ k. absurd (ground arith), λ k. cc)
foreground_end_iff none other_signal total events h = (λ k. absurd (ground arith), λ k. cc)
foreground_end_iff none no_signal total [] h = (λ k. ground arith, λ k. ground arith)
foreground_end_iff none no_signal total (event ∷ events) h = (λ k. ground arith, λ k. ground arith)
