-- ===== src/Tests/Printing.antt =====
-- `plan` for the sample: its blocks, its errors and its exit code.
use kubeforward.Base.{refl, arith, String, false, Option, some, [], ◌∷◌, string_eq}
use kubeforward.Config.{ForwardDefinition}
use kubeforward.Loader.Load.{Parsed, parsed, load_config_from_file}
use kubeforward.Cli.Requests.{done}
use kubeforward.Cli.Options.{CommandOptions}
use kubeforward.Cli.PlanCommand.{plan_config, run_plan_command}
use kubeforward.Cli.PlanCommand.Laws.{Prints, plan_config-Prints}
use kubeforward.Cli.PlanCommand.Total.{Returns, run_plan_command-Returns}
use kubeforward.Tests.Document.{Tree, document}
use kubeforward.Tests.Samples.{root, sample}
use kubeforward.Tests.Loading.{two_environments}
use kubeforward.Tests.Planning.{path, dev_chain, prod_chain}

abbrev in_shop : ForwardDefinition → String
in_shop f = "shop"

abbrev all_of_sample : CommandOptions
all_of_sample = record {
  show_help = false;
  daemon = false;
  verbose = false;
  config_path = path;
  env_filter = "";
}

abbrev only_prod : CommandOptions
only_prod = record all_of_sample { env_filter = "prod" }

plan_config-Prints_example :
    Prints all_of_sample sample
      ("dev" ∷ "prod" ∷ [])
      (dev_chain, (prod_chain, tt))
      (plan_config 2 all_of_sample sample)
plan_config-Prints_example =
    plan_config-Prints all_of_sample sample 2 (dev_chain, (prod_chain, tt)) refl refl (omega arith)

abbrev reads : String → Option String
reads name = some ""

abbrev loads : String → Parsed Tree
loads contents = parsed root

run_plan_command-Returns_example :
    Returns (run_plan_command 2 (load_config_from_file document reads loads 2) (done only_prod) "")
run_plan_command-Returns_example =
    run_plan_command-Returns document reads loads 2 (done only_prod) "" two_environments
