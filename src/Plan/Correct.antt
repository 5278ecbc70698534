-- ===== src/Plan/Correct.antt =====
-- `BuildResolvedPlan` against the chains of the config.
use kubeforward.Base.{
  ℕ, ◌≤◌, ◌≡◌, refl, ◌∙◌, ◌↔◌, String, true, none, some, List, [], ◌∷◌, arith, length, All,
}
use kubeforward.Base.Map.{lookup, keys}
use kubeforward.Config.{Config, EnvironmentDefinition}
use kubeforward.Base.Run.{Run, returns}
use kubeforward.Plan.Types.{
  ResolvedEnvironment, ResolvedPlan, PlanBuildError, PlanBuildResult, is_ok,
}
use kubeforward.Plan.Resolve.{
  ResolveState, initial, plan_result, resolve_targets, build_targets, build_resolved_plan,
}
use kubeforward.Plan.Chain.{Ancestry, Clean, chain_environment, has_key-Ancestry}
use kubeforward.Plan.Chain.Cache.{CacheHolds}
use kubeforward.Plan.Chain.Resolves.{resolve-Resolves}
use kubeforward.Plan.Chain.Fuel.{length-le-environments, none_visited}

module _ (config : Config) where
  -- The chain of a name comes to an end, at an environment that extends nothing.
  abbrev pub HasChain : String → Type 0
  HasChain name = (envs : List EnvironmentDefinition) × Ancestry config envs (some name)

  abbrev pub chain_environments :
      (targets : List String) → All HasChain targets → List ResolvedEnvironment
  chain_environments [] chains = []
  chain_environments (name ∷ targets) (c, chains) =
      chain_environment config name c.0 ∷ chain_environments targets chains

  abbrev pub AllClean : (targets : List String) → All HasChain targets → Type 0
  AllClean [] chains = Unit
  AllClean (name ∷ targets) (c, chains) = Clean config c.0 (some name) × AllClean targets chains

  record ResolvesAll (targets : List String) (chains : All HasChain targets) (st : ResolveState)
      (run : Run (List ResolvedEnvironment × ResolveState)) : Type 0 where
    after : ResolveState
    ends : run ≡ returns (chain_environments targets chains, after)
    quiet : AllClean targets chains → after.errors ≡ st.errors
    loud : after.errors ≡ [] → (st.errors ≡ []) × AllClean targets chains

  resolve_targets-ResolvesAll :
      (fuel : ℕ) (targets : List String) (chains : All HasChain targets) (st : ResolveState)
      → length config.environments ≤ fuel
      → CacheHolds config st
      → st.visiting ≡ []
      → ResolvesAll targets chains st (resolve_targets fuel targets config st)
  unfolding resolve_targets
  resolve_targets-ResolvesAll fuel [] chains st enough c v = record {
    after = st;
    ends = refl;
    quiet = λ _. refl;
    loud = λ h. (h, tt);
  }
  resolve_targets-ResolvesAll fuel (name ∷ targets) ((envs, a), chains) st enough c v =
      let one =
        resolve-Resolves config fuel name envs st
          (omega (arith, length-le-environments config envs name a)) a c
          (rw v (none_visited config (length envs))) in
      let rest =
        resolve_targets-ResolvesAll fuel targets chains one.after enough one.cached
          (one.visiting_kept ∙ v) in
      record {
        after = rest.after;
        ends = rw (one.ends, rest.ends);
        quiet = λ k. rest.quiet k.1 ∙ one.quiet k.0;
        loud = λ h.
            let (before, others) = rest.loud h in
            let (start, own) = one.loud before in (start, (own, others));
      }

  abbrev pub chain_plan : String → (targets : List String) → All HasChain targets → ResolvedPlan
  chain_plan config_path targets chains = record {
    config_path = config_path;
    environments = chain_environments targets chains;
  }

  -- The call returns; its result is ok, and holds the plan of the chains, exactly when these are clean.
  pub record Builds (config_path : String) (targets : List String) (chains : All HasChain targets)
      (run : Run PlanBuildResult) : Type 0 where
    pub result : PlanBuildResult
    pub ends : run ≡ returns result
    pub ok_iff : (is_ok result ≡ true) ↔ AllClean targets chains
    pub plan_iff :
        (result.plan ≡ some (chain_plan config_path targets chains)) ↔ AllClean targets chains

  plan_result_ok :
      (config_path : String) (envs : List ResolvedEnvironment) (errors : List PlanBuildError)
      → (is_ok (plan_result config_path envs errors) ≡ true) ↔ (errors ≡ [])
  plan_result_ok config_path envs [] = (λ _. refl, λ _. refl)
  plan_result_ok config_path envs (e ∷ errors) = (λ h. cc, λ h. cc)

  plan_result_plan :
      (config_path : String) (envs : List ResolvedEnvironment) (errors : List PlanBuildError)
      → ((plan_result config_path envs errors).plan
          ≡ some (record { config_path = config_path; environments = envs }))
        ↔ (errors ≡ [])
  plan_result_plan config_path envs [] = (λ _. refl, λ _. refl)
  plan_result_plan config_path envs (e ∷ errors) = (λ h. cc, λ h. cc)

  build_targets-Builds :
      (fuel : ℕ) (config_path : String) (targets : List String) (chains : All HasChain targets)
      → length config.environments ≤ fuel
      → Builds config_path targets chains (build_targets fuel config config_path targets)
  unfolding build_targets lookup
  build_targets-Builds fuel config_path targets chains enough =
      let all =
        resolve_targets-ResolvesAll fuel targets chains initial enough
          (record { entry = λ n r h. cc }) refl in
      let envs = chain_environments targets chains in
      let ok = plan_result_ok config_path envs all.after.errors in
      let plan = plan_result_plan config_path envs all.after.errors in
      record {
        result = plan_result config_path envs all.after.errors;
        ends = rw all.ends;
        ok_iff = (λ h. (all.loud (ok.0 h)).1, λ k. ok.1 (all.quiet k));
        plan_iff = (λ h. (all.loud (plan.0 h)).1, λ k. plan.1 (all.quiet k));
      }

  -- For an environment whose chain of parents ends, and with fuel for the environments, the call
  -- with that environment as its filter returns. The result is ok, and its plan holds exactly the
  -- environment that the chain stands for, if and only if every environment of the chain is clean.
  pub build_resolved_plan_filtered :
      (fuel : ℕ) (config_path name : String) (chain : HasChain name)
      → length config.environments ≤ fuel
      → Builds config_path
          (name ∷ [])
          (chain, tt)
          (build_resolved_plan fuel config config_path (some name))
  unfolding build_resolved_plan
  build_resolved_plan_filtered fuel config_path name chain enough =
      rw (has_key-Ancestry config chain.0 name chain.1)
        (build_targets-Builds fuel config_path (name ∷ []) (chain, tt) enough)

  -- If every environment's chain of parents ends, and with fuel for the environments, the call with
  -- no filter returns. The result is ok, and its plan holds exactly the environments that the chains
  -- stand for in the order of the map, if and only if every environment of every chain is clean.
  pub build_resolved_plan_unfiltered :
      (fuel : ℕ) (config_path : String) (chains : All HasChain (keys config.environments))
      → length config.environments ≤ fuel
      → Builds config_path
          (keys config.environments)
          chains
          (build_resolved_plan fuel config config_path none)
  unfolding build_resolved_plan
  build_resolved_plan_unfiltered fuel config_path chains enough =
      build_targets-Builds fuel config_path (keys config.environments) chains enough
