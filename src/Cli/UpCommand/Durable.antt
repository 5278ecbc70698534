-- ===== src/Cli/UpCommand/Durable.antt =====
-- After an `up` that ended well, the state file holds its session.
use kubeforward.Base.{
  ℕ, ◌≡◌, refl, inl, inr, String, true, false, not, ◌&&◌, some, List, [], ◌∷◌, empty, Bool-cases,
  Option-cases, is_empty, ◌⊎◌, sym, subst,
}
use kubeforward.Base.Map.{has_key}
use kubeforward.Base.Run.{Run, returns, out_of_range, out_of_fuel, ◌>>=◌}
use kubeforward.Config.{Config}
use kubeforward.Plan.Types.{ResolvedEnvironment, ResolvedPlan, PlanBuildResult}
use kubeforward.Plan.Names.{HasName, build_resolved_plan-HasName}
use kubeforward.Plan.Resolve.{build_resolved_plan}
use kubeforward.Loader.Load.{ConfigLoadResult}
use kubeforward.Session.{ManagedSession, RuntimeState}
use kubeforward.Store.Nodes.{NodesLaws}
use kubeforward.Store.Files.{Saving, Loading}
use kubeforward.Store.Files.Durable.{Works, loaded, load_state-save_state}
use kubeforward.Cli.Requests.{done}
use kubeforward.Cli.Options.{CommandOptions, goes_on_lem}
use kubeforward.Cli.Sessions.{resolve_single_environment}
use kubeforward.Cli.Sessions.View.{SessionMap, Represents, assign}
use kubeforward.Cli.Machine.{Machine, Disks, normalize_path, state_path, load_at, save_at}
use kubeforward.Cli.Up.{UpResult, refused, running}
use kubeforward.Cli.Steps.{up-Represents}
use kubeforward.Cli.UpCommand.{
  UpCalls, UpEnd, ended, serves, attached, up_on, up_ended, up_environment, up_plan, up_config,
  up_loaded, run_up_command, replaced_processes,
}

module _ (M : Machine) (laws : NodesLaws M.nodes) (calls : UpCalls M) (foreground_fuel : ℕ)
    (options : CommandOptions) (loading reading : Loading) (works : Works reading)
    (saving : Saving M.nodes.Contents) (disk : Disks M) (m : SessionMap)
    (h : Represents
      (load_at M loading (state_path M options.config_path) disk).0.state.sessions
      m) where
  abbrev disk' : Disks M
  disk' = (load_at M loading (state_path M options.config_path) disk).1

  abbrev before : RuntimeState
  before = (load_at M loading (state_path M options.config_path) disk).0.state

  -- Without a filter it is any environment's name.
  abbrev pub IsChosen : String → Type 0
  IsChosen name = (is_empty options.env_filter ≡ true) ⊎ (name ≡ options.env_filter)

  -- A state is read back. It has a session of the config and of the environment that was asked for in
  -- its place, and is otherwise the one that was loaded before.
  abbrev pub Upped : Disks M → Type 0
  Upped left =
      (session : ManagedSession) × (after : RuntimeState) × ((load_at M reading
          (state_path M options.config_path) left).0
        ≡ loaded after)
      × (session.config_path ≡ normalize_path M options.config_path)
      × IsChosen session.environment
      × Represents after.sessions (assign session m)

  -- Wherever the command leaves its session running, the file holds it.
  abbrev pub Holds : Run (UpEnd M) → Type 0
  Holds (returns (ended output)) = Unit
  Holds (returns (serves text left)) = Upped left
  Holds (returns (attached text left end)) = Upped left
  Holds out_of_range = Unit
  Holds out_of_fuel = Unit

  >>=-Holds :
      {A : Type 0} (run : Run A) (f : A → Run (UpEnd M))
      → ((a : A) → run ≡ returns a → Holds (f a))
      → Holds (run >>= f)
  >>=-Holds (returns a) f k = k a refl
  >>=-Holds out_of_range f k = tt
  >>=-Holds out_of_fuel f k = tt

  up_ended-Holds :
      (env_name : String) (env : ResolvedEnvironment) (replaced : ℕ) (st st' : M.system.State)
      (outcome : UpResult)
      → IsChosen env.name
      → (up_on M calls foreground_fuel options saving env before disk' st).0 ≡ outcome
      → Holds (
          returns (
            up_ended M calls foreground_fuel options saving env_name env replaced disk' outcome
              st'))
  unfolding up_ended
  up_ended-Holds env_name env replaced st st' (refused lines) chosen r = tt
  up_ended-Holds env_name env replaced st st' (running session after) chosen r =
      let puts =
        up-Represents M.system calls.sockets (normalize_path M options.config_path) env
          options.daemon _ before _ _ calls.start calls.skip_readiness_check
          calls.wait_for_forward_ready _ calls.id_time calls.utc_now _ m session after st h r in
      let back =
        load_state-save_state M.nodes laws M.parent_path _ after saving reading disk' works
          puts.0 in
      let upped : Upped (save_at M saving (state_path M options.config_path) disk' after).disk =
        (session, after, back, puts.2, subst IsChosen (sym puts.3) chosen, puts.1) in
      elim (Bool-cases (not options.daemon && not M.system.use_noop_runner)) [
        | inl a ↦ rw (a, up_ended) upped
        | inr a ↦ rw (a, up_ended) upped
      ]

  up_environment-Holds :
      (env_name : String) (st : M.system.State) (env : ResolvedEnvironment)
      → IsChosen env.name
      → Holds (
          returns
            (up_environment M calls foreground_fuel options saving env_name loading disk st env))
  unfolding up_environment
  up_environment-Holds env_name st env chosen =
      elim (Bool-cases
        (empty (load_at M loading (state_path M options.config_path) disk).0.errors)) [
          | inr e ↦ rw (e, up_environment) tt
          | inl e ↦
              rw (e, up_environment)
                (up_ended-Holds env_name env
                  (replaced_processes M calls foreground_fuel options saving env before st) st
                  (up_on M calls foreground_fuel options saving env before disk' st).1
                  (up_on M calls foreground_fuel options saving env before disk' st).0 chosen refl)
        ]

  up_plan-Holds :
      (env_name : String) (st : M.system.State) (result : PlanBuildResult)
      → IsChosen env_name
      → ((plan : ResolvedPlan) → result.plan ≡ some plan → HasName env_name plan.environments)
      → Holds (up_plan M calls foreground_fuel options saving env_name loading disk st result)
  unfolding up_plan
  up_plan-Holds env_name st result chosen named = elim (Option-cases result.plan) [
    | inl p ↦ rw (p, up_plan) tt
    | inr (plan, p) ↦ elim (Bool-cases (empty result.errors)) [
      | inr e ↦ rw (p, e, up_plan) tt
      | inl e ↦ rw (p, e, up_plan) (first-Holds plan.environments (named plan p))
    ]
  ]
    where
      first-Holds :
          (envs : List ResolvedEnvironment)
          → HasName env_name envs
          → Holds (elim envs [
            | [] ↦ out_of_range
            | env ∷ _ ↦
                returns (
                  up_environment M calls foreground_fuel options saving env_name loading disk st
                    env)
          ])
      first-Holds [] h = tt
      first-Holds (env ∷ envs) h =
          up_environment-Holds env_name st env (subst IsChosen (sym h.0) chosen)

  resolve_single_environment-IsChosen :
      (config : Config) (env_name : String)
      → resolve_single_environment config options.env_filter ≡ some env_name
      → IsChosen env_name
  unfolding resolve_single_environment
  resolve_single_environment-IsChosen config env_name r =
      elim (Bool-cases (is_empty options.env_filter)) [
        | inl e ↦ inl e
        | inr e ↦ inr (let r' = rw e at r in cc)
      ]

  up_config-Holds :
      (fuel : ℕ) (st : M.system.State) (config : Config)
      → Holds (up_config M calls foreground_fuel options saving fuel loading disk st config)
  unfolding up_config
  up_config-Holds fuel st config =
      elim (Option-cases (resolve_single_environment config options.env_filter)) [
        | inl r ↦ rw (r, up_config) tt
        | inr (env_name, r) ↦ elim (Bool-cases (has_key env_name config.environments)) [
          | inr k ↦ rw (r, k, up_config) tt
          | inl k ↦
              rw (r, k, up_config)
                (>>=-Holds (build_resolved_plan fuel config options.config_path (some env_name)) _
                  (λ result built.
                    up_plan-Holds env_name st result
                      (resolve_single_environment-IsChosen config env_name r)
                      (λ plan given.
                        build_resolved_plan-HasName fuel config options.config_path env_name result
                          plan built given)))
        ]
      ]

  up_loaded-Holds :
      (fuel : ℕ) (st : M.system.State) (result : ConfigLoadResult)
      → Holds (up_loaded M calls foreground_fuel options saving fuel loading disk st result)
  unfolding up_loaded
  up_loaded-Holds fuel st result = elim (Option-cases result.config) [
    | inl c ↦ rw (c, up_loaded) tt
    | inr (config, c) ↦ rw (c, up_loaded) (up_config-Holds fuel st config)
  ]

  -- Under the laws of the nodes that yaml-cpp builds, writes and loads, for options that do not ask
  -- for help, and where the loaded state has at most one session for each config and environment (it
  -- stands for the map `m`): when `up` leaves its session running, whether it stays attached or not,
  -- reading the state file with which it runs, with calls that all work, gives a state that has a
  -- session of the config in its place, and every other place of the map as it was; if the options
  -- name an environment, it is a session of this one.
  pub run_up_command-Upped :
      (help : String) (fuel : ℕ) (load : String → Run ConfigLoadResult) (st : M.system.State)
      → options.show_help ≡ false
      → Holds (
          run_up_command M calls foreground_fuel fuel load
            (done options)
            help
            loading
            saving
            disk
            st)
  unfolding run_up_command
  run_up_command-Upped help fuel load st shown =
      rw (goes_on_lem "up" options help shown, run_up_command)
        (>>=-Holds (load options.config_path) _ (λ result _. up_loaded-Holds fuel st result))
