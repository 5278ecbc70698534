-- ===== src/Cli/PlanCommand/Laws.antt =====
-- `plan` ends on every file, and prints what the chains of the config stand for.
use kubeforward.Base.{
  ℕ, ◌≤◌, ◌≡◌, refl, ◌∙◌, ◌⊎◌, inl, inr, String, ◌<>◌, true, false, some, List, [], ◌∷◌, All,
  length, if◌then◌else◌, is_empty, empty, Bool-cases, Option-cases,
}
use kubeforward.Base.Map.{keys}
use kubeforward.Base.Run.{Run, returns, ◌>>=◌}
use kubeforward.Config.{Config, EnvironmentDefinition}
use kubeforward.Plan.Types.{ResolvedEnvironment, PlanBuildResult, ResolvedPlan, is_ok}
use kubeforward.Plan.Chain.{chain_environment}
use kubeforward.Plan.Correct.{
  HasChain, chain_environments, chain_plan, AllClean, Builds, build_resolved_plan_filtered,
  build_resolved_plan_unfiltered,
}
use kubeforward.Cli.Options.{Output, CommandOptions, refuses, print_plan_errors}
use kubeforward.Cli.Print.{print_verbose_header}
use kubeforward.Cli.PlanCommand.{print_environment, print_environments, print_plan, plan_config}

module _ (options : CommandOptions) (config : Config) where
  abbrev source_of : List EnvironmentDefinition → String → ResolvedEnvironment → String
  source_of [] name env = ""
  source_of (source_env ∷ envs) name env = print_environment options.verbose source_env env

  -- One block for each target, with the source of the environment and what its chain stands for.
  abbrev pub chain_text : (targets : List String) → All (HasChain config) targets → String
  chain_text [] chains = ""
  chain_text (name ∷ targets) (c, chains) =
      source_of c.0 name (chain_environment config name c.0) <> chain_text targets chains

  print_environments-chain :
      (targets : List String) (chains : All (HasChain config) targets)
      → print_environments options.verbose config (chain_environments config targets chains)
        ≡ returns (chain_text targets chains)
  unfolding print_environments
  print_environments-chain [] chains = refl
  print_environments-chain (name ∷ targets) (([], a), chains) = absurd a
  print_environments-chain (name ∷ targets) ((env ∷ envs, a), chains) =
      rw (a.0, print_environments-chain targets chains, print_environments)

  abbrev refusal : PlanBuildResult → Output
  refusal result =
      refuses ("plan: failed to resolve execution plan.\n" <> print_plan_errors result.errors)

  abbrev header : String
  header = if options.verbose then print_verbose_header config options.config_path else ""

  -- The command returns. Its code is 0 and its output the text of the chains where every environment
  -- of every chain is clean, and its code is 2 where one is not.
  abbrev pub Prints : (targets : List String) → All (HasChain config) targets → Run Output → Type 0
  Prints targets chains run =
      (output : Output) × (run ≡ returns output)
      × (AllClean config targets chains
            × (output.code ≡ 0)
            × (output.out ≡ header <> chain_text targets chains)
          ⊎ (¬ AllClean config targets chains) × (output.code ≡ 2))

  print_plan_ok :
      (result : PlanBuildResult) (plan : ResolvedPlan)
      → result.plan ≡ some plan
      → empty result.errors ≡ true
      → print_plan options config result ≡ (
          print_environments options.verbose config plan.environments >>= λ text.
          returns (record { code = 0; out = header <> text; err = "" }))
  unfolding print_plan
  print_plan_ok result plan e k = rw (e, k, print_plan)

  print_plan_bad :
      (result : PlanBuildResult)
      → is_ok result ≡ false
      → (output : Output) × (print_plan options config result ≡ returns output) × (output.code ≡ 2)
  unfolding print_plan
  print_plan_bad result k = elim (Option-cases result.plan) [
    | inl e ↦ (refusal result, rw (e, print_plan), refl)
    | inr (plan, e) ↦ let q = rw e at k in (refusal result, rw (e, q, print_plan), refl)
  ]

  print_plan-Prints :
      (targets : List String) (chains : All (HasChain config) targets) (run : Run PlanBuildResult)
      (b : Builds config options.config_path targets chains run)
      → Prints targets chains (print_plan options config b.result)
  print_plan-Prints targets chains run b = elim (Bool-cases (is_ok b.result)) [
    | inl k ↦
        let clean = b.ok_iff.0 k in
        let e = b.plan_iff.1 clean in
        let q = rw e at k in
        (
          record { code = 0; out = header <> chain_text targets chains; err = "" },
          print_plan_ok b.result (chain_plan config options.config_path targets chains) e q
              ∙ rw (print_environments-chain targets chains),
          inl (clean, refl, refl),
        )
    | inr k ↦
        let (output, e, c) = print_plan_bad b.result k in
        (output, e, inr (λ clean. cc (b.ok_iff.1 clean, k), c))
  ]

  -- For a config with environments, each of whose chains of parents ends, and with fuel for its
  -- environments: `plan` with no filter returns. Its code is 0 exactly when every environment of
  -- every chain is clean, and then it prints a block for each environment, in the order of the map,
  -- with what its chain stands for; otherwise its code is 2.
  pub plan_config-Prints :
      (fuel : ℕ) (chains : All (HasChain config) (keys config.environments))
      → is_empty options.env_filter ≡ true
      → empty config.environments ≡ false
      → length config.environments ≤ fuel
      → Prints (keys config.environments) chains (plan_config fuel options config)
  unfolding plan_config
  plan_config-Prints fuel chains f e enough =
      let b = build_resolved_plan_unfiltered config fuel options.config_path chains enough in
      rw (e, f, b.ends, plan_config) (print_plan-Prints (keys config.environments) chains _ b)

  -- The same for one environment that is named by the filter.
  pub plan_config_filtered :
      (fuel : ℕ) (chain : HasChain config options.env_filter)
      → is_empty options.env_filter ≡ false
      → empty config.environments ≡ false
      → length config.environments ≤ fuel
      → Prints (options.env_filter ∷ []) (chain, tt) (plan_config fuel options config)
  unfolding plan_config
  plan_config_filtered fuel chain f e enough =
      let b =
        build_resolved_plan_filtered config fuel options.config_path options.env_filter chain
          enough in
      rw (e, f, b.ends, plan_config) (print_plan-Prints (options.env_filter ∷ []) (chain, tt) _ b)
