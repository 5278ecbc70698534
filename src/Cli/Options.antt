-- ===== src/Cli/Options.antt =====
-- src/cli/cli.cpp: what the commands share before they run. cxxopts is a parameter: it gives the
-- options of the arguments, or the text of its exception, and the help text.
use kubeforward.Base.{ℕ, ◌≡◌, String, ◌<>◌, Bool, true, false, List, [], ◌∷◌, if◌then◌else◌}
use kubeforward.Plan.Types.{PlanBuildError}
use kubeforward.Loader.Errors.{ConfigLoadError}
use kubeforward.Cli.Requests.{Result, done, failed}
use kubeforward.Cli.Print.{print_each}

-- What a command leaves: its exit code and what it wrote to the two outputs.
pub record Output : Type 0 where
  pub code : ℕ
  pub out : String
  pub err : String

pub record CommandOptions : Type 0 where
  pub show_help : Bool
  pub daemon : Bool
  pub verbose : Bool
  pub config_path : String
  pub env_filter : String

abbrev pub app_help : String
app_help =
    "kubeforward CLI\n\nUsage:\n  kubeforward <command> [options]\n  kubeforward --version\n\nCommands:\n  plan    Render the normalized port-forward plan.\n  up      Start port-forwards for one environment.\n  down    Stop port-forwards for one or all environments.\n  help    Show this message.\n\nGlobal options:\n  --version    Show kubeforward CLI version.\n"

abbrev pub run_mode : Bool → String
run_mode true = "daemon"
run_mode false = "foreground"

-- `args[i]` from `start_index` on.
abbrev pub drop_args : ℕ → List String → List String
drop_args ℕ.zero args = args
drop_args (ℕ.suc n) [] = []
drop_args (ℕ.suc n) (arg ∷ args) = drop_args n args

-- `args.front()` of arguments that are there.
unfoldable pub build_subcommand_args : String → List String → ℕ → String → List String
build_subcommand_args front args start_index command_name =
    (front <> " " <> command_name) ∷ drop_args start_index args

-- `false` with what the command leaves, or the options.
pub data Options : Type 0 where
  stops : Output → Options
  goes_on : CommandOptions → Options

unfoldable pub parse_command_options : String → Result CommandOptions → String → Options
parse_command_options command_name parsed help = elim parsed [
  | failed what ↦ stops (record { code = 1; out = ""; err = command_name <> ": " <> what <> "\n" })
  | done options ↦
      if options.show_help
      then stops (record { code = 0; out = help <> "\n"; err = "" })
      else goes_on options
]

-- Options that do not ask for help are passed on.
pub goes_on_lem :
    (command_name : String) (options : CommandOptions) (help : String)
    → options.show_help ≡ false
    → parse_command_options command_name (done options) help ≡ goes_on options
unfolding parse_command_options
goes_on_lem command_name options help h = simp h

-- Code 2 with a message.
abbrev pub refuses : String → Output
refuses err = record { code = 2; out = ""; err = err }

abbrev pub print_load_errors : List ConfigLoadError → String
print_load_errors = print_each (λ e. "  - " <> e.context <> ": " <> e.message <> "\n")

abbrev pub print_plan_errors : List PlanBuildError → String
print_plan_errors = print_each (λ e. "  - " <> e.context <> ": " <> e.message <> "\n")

abbrev pub load_failed : String → String → List ConfigLoadError → Output
load_failed command_name config_path errors = refuses (
    command_name
    <> ": failed to load config '"
    <> config_path
    <> "'.\n"
    <> print_load_errors errors)
