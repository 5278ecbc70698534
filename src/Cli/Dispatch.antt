-- ===== src/Cli/Dispatch.antt =====
-- src/cli/cli.cpp: `run_cli`, over the three commands, each of which takes its arguments. The version
-- of the build is a parameter.
pub mod Defaults
use Prim.Native.Char.{code}
use kubeforward.Base.{
  ℕ, String, ◌<>◌, Bool, true, false, ◌||◌, List, [], ◌∷◌, ◌==◌, string_eq, if◌then◌else◌, eqb,
}
use kubeforward.Cli.Options.{Output, app_help, build_subcommand_args}

-- `!command.empty() && command[0] == '-'`
abbrev pub is_option : String → Bool
is_option String.[] = false
is_option (String.◌∷◌ c s) = eqb (code c) b'-'

abbrev pub is_help : String → Bool
is_help command = command == "help" || (command == "--help" || command == "-h")

abbrev pub general_help : ℕ → String → Output
general_help exit_code err = record { code = exit_code; out = app_help; err = err }

module _ (version : String) {A : Type 0} (prints : Output → A)
    (plan up down : List String → A) where
  -- The command that stands first; `args` are all the arguments.
  unfoldable pub run_command : String → List String → String → A
  unfolding build_subcommand_args
  run_command front args command =
      if is_help command
      then prints (general_help 0 "")
      else if command == "--version"
      then prints (record { code = 0; out = version <> "\n"; err = "" })
      else if command == "plan"
      then plan (build_subcommand_args front args 2 "plan")
      else if command == "up"
      then up (build_subcommand_args front args 2 "up")
      else if command == "down"
      then down (build_subcommand_args front args 2 "down")
      else if is_option command
      then plan (build_subcommand_args front args 1 "plan")
      else prints (general_help 1 ("Unknown command '" <> command <> "'.\n\n"))

  unfoldable pub run_cli : List String → A
  unfolding run_command
  run_cli [] = prints (general_help 1 "")
  run_cli (front ∷ []) = plan (build_subcommand_args front (front ∷ []) 1 "plan")
  run_cli (front ∷ command ∷ rest) = run_command front (front ∷ command ∷ rest) command
