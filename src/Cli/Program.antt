-- ===== src/Cli/Program.antt =====
-- cmd/kubeforward/main.cpp: `main`.
use kubeforward.Base.{ℕ, zero, suc, ◌+◌, String, List, [], ◌∷◌}
use kubeforward.Cli.Options.{Output}
use kubeforward.Cli.Dispatch.{run_cli}

-- The loop over `argv`, with `count` arguments left from `i` on.
abbrev pub args_from : ℕ → ℕ → (ℕ → String) → List String
args_from zero i argv = []
args_from (suc count) i argv = argv i ∷ args_from count (i + 1) argv

unfoldable pub main :
    (version : String) {A : Type 0} (prints : Output → A) (plan up down : List String → A)
    (argc : ℕ) (argv : ℕ → String)
    → A
unfolding run_cli
main version prints plan up down argc argv =
    run_cli version prints plan up down (args_from argc 0 argv)
