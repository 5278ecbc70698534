-- ===== src/Tests/Entering.antt =====
-- The program with two arguments.
use kubeforward.Base.{ℕ, zero, ◌≡◌, refl, String, List, [], ◌∷◌, string_eq}
use kubeforward.Cli.Options.{Output, build_subcommand_args}
use kubeforward.Cli.Dispatch.{run_cli, run_command}
use kubeforward.Cli.Program.{main}

abbrev argv_down : ℕ → String
argv_down zero = "kubeforward"
argv_down _ = "down"

abbrev no_output : Output → List String
no_output output = []

abbrev tagged : String → List String → List String
tagged name args = name ∷ args

runs_down :
    main "1.0" no_output (tagged "plan") (tagged "up") (tagged "down") 2 argv_down
    ≡ "down" ∷ "kubeforward down" ∷ []
unfolding main run_cli run_command build_subcommand_args string_eq
runs_down = refl
