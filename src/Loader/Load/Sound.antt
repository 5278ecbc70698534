-- ===== src/Loader/Load/Sound.antt =====
-- What holds of every config that the loader gives out, and that the plan builder ends on it.
use mathlib.Core.Option.{some-injective}
use kubeforward.Base.{
  ℕ, ◌≤◌, ◌≡◌, refl, sym, ap, subst, ◌∙◌, ◌↔◌, inl, inr, String, true, Option, none, some, List, [],
  ◌∷◌, ◌++◌, arith, ◌==◌, length, All, append-eq-nil, Bool-cases, ==_iff, string_eq,
}
use kubeforward.Base.Int.{ℤ, pos, int_eq}
use kubeforward.Base.Map.{Map, lookup, has_key, has_key_tail, keys, Values}
use kubeforward.Base.Run.{Run, returns}
use kubeforward.Config.{Config, EnvironmentDefinition}
use kubeforward.Yaml.{Yaml}
use kubeforward.Loader.Errors.{ConfigLoadError}
use kubeforward.Loader.Scalars.{ensure_allowed_keys, read_optional_int}
use kubeforward.Loader.Validate.{
  validate_environment, validate_environments, validate_global_forward_names,
}
use kubeforward.Loader.Validate.Exact.{IsValidEnvironment, validate_environment_iff}
use kubeforward.Loader.Extends.Exact.{validate_environment_extends-Checks}
use kubeforward.Loader.Load.Ranges.{ForwardsInRange, parse_config_valid}
use kubeforward.Loader.Load.{
  ConfigLoadResult, accept_version, parse_config, load_result, load_config,
}
use kubeforward.Plan.Types.{PlanBuildResult}
use kubeforward.Plan.Resolve.{build_resolved_plan}
use kubeforward.Plan.Correct.{
  HasChain, build_resolved_plan_filtered, build_resolved_plan_unfiltered,
}

validate_environments_iff :
    (envs : Map EnvironmentDefinition)
    → ((validate_environments envs).errors ≡ [])
      ↔ All (λ (e : String × EnvironmentDefinition). IsValidEnvironment e.1) envs
unfolding validate_environments
validate_environments_iff [] = (λ _. tt, λ _. refl)
validate_environments_iff ((name, env) ∷ envs) =
    let one = validate_environment_iff env in
    let rest = validate_environments_iff envs in
    (
      λ h.
          let (a, b) = (append-eq-nil (validate_environment env).errors _).0 h in
          (one.0 a, rest.0 b),
      λ h. (append-eq-nil (validate_environment env).errors _).1 (one.1 h.0, rest.1 h.1),
    )

-- A config as the loader gives it out: schema version 1, every environment valid, every port in
-- range, and every environment's chain of parents ends.
pub record IsLoadable (config : Config) : Type 0 where
  pub version : config.version ≡ pos 1
  pub environments :
      All (λ (e : String × EnvironmentDefinition). IsValidEnvironment e.1) config.environments
  pub in_range : Values ForwardsInRange config.environments
  pub chains : All (HasChain config) (keys config.environments)

accept_version_one :
    (version : Option ℤ)
    → (accept_version version).errors ≡ []
    → (accept_version version).value ≡ pos 1
unfolding accept_version
accept_version_one none h = cc
accept_version_one (some version) h = ground arith

pub chain_of_key :
    (config : Config) (m : Map EnvironmentDefinition) (name : String)
    → All (HasChain config) (keys m)
    → has_key name m ≡ true
    → HasChain config name
unfolding lookup
chain_of_key config [] name chains h = absurd (cc h)
chain_of_key config ((k, env) ∷ m) name chains h = elim (Bool-cases (k == name)) [
  | inl e ↦ subst (HasChain config) ((==_iff k name).0 e) chains.0
  | inr e ↦ chain_of_key config m name chains.1 (has_key_tail name k env m e h)
]

module _ (Y : Yaml) (root : Y.Node) where
  abbrev read : Config
  read = (parse_config Y root).value

  parse_config_version : (parse_config Y root).errors ≡ [] → read.version ≡ pos 1
  unfolding parse_config
  parse_config_version h =
      let (_, h1) = (append-eq-nil (ensure_allowed_keys Y root _ _).errors _).0 h in
      let (_, h2) = (append-eq-nil (read_optional_int Y _ _).errors _).0 h1 in
      accept_version_one (read_optional_int Y (Y.child root "version") "version").value
        ((append-eq-nil _ _).0 h2).0

  record Loads (run : Run ConfigLoadResult) : Type 0 where
    result : ConfigLoadResult
    ends : run ≡ returns result
    sound :
        (config : Config)
        → result.config ≡ some config
        → (result.errors ≡ []) × (config ≡ read) × IsLoadable config

  load_result-eq-some :
      (errors : List ConfigLoadError) (config : Config)
      → (load_result Y read errors).config ≡ some config
      → (errors ≡ []) × (config ≡ read)
  load_result-eq-some [] config h = (refl, sym (some-injective _ _ h))
  load_result-eq-some (e ∷ errors) config h = cc

  load_config-Loads :
      (fuel : ℕ)
      → length (parse_config Y root).value.environments ≤ fuel
      → Loads (load_config Y fuel root)
  unfolding load_config
  load_config-Loads fuel enough =
      let checks = validate_environment_extends-Checks read fuel enough in
      record {
        result = load_result Y read (
            (parse_config Y root).errors
            ++ ((validate_environments read.environments).errors
                ++ (checks.errors ++ (validate_global_forward_names read).errors)));
        ends = rw checks.ends;
        sound = λ config h.
            let (none_found, same) = load_result-eq-some _ config h in
            let (a, h1) = (append-eq-nil (parse_config Y root).errors _).0 none_found in
            let (b, h2) = (append-eq-nil (validate_environments read.environments).errors _).0 h1 in
            let (c, _) = (append-eq-nil checks.errors _).0 h2 in
            (
              none_found,
              same,
              subst IsLoadable (sym same) (record {
                version = parse_config_version a;
                environments = (validate_environments_iff read.environments).0 b;
                in_range = parse_config_valid Y root a;
                chains = checks.sound c;
              }),
            );
      }

  -- With fuel for the environments that are read, loading a top-level mapping returns.
  pub load_config-returns :
      (fuel : ℕ)
      → length (parse_config Y root).value.environments ≤ fuel
      → (result : ConfigLoadResult) × (load_config Y fuel root ≡ returns result)
  load_config-returns fuel enough =
      let loads = load_config-Loads fuel enough in (loads.result, loads.ends)

  -- With fuel for the environments that are read, a config that loading gives out comes with no
  -- error and is the one that was read: its version is 1, every environment is valid,
  -- every local and remote port is from 1 to 65535, and every environment's chain of parents ends.
  pub load_config-IsLoadable :
      (fuel : ℕ) (result : ConfigLoadResult) (config : Config)
      → length (parse_config Y root).value.environments ≤ fuel
      → load_config Y fuel root ≡ returns result
      → result.config ≡ some config
      → (result.errors ≡ []) × (config ≡ read) × IsLoadable config
  load_config-IsLoadable fuel result config enough e h =
      let loads = load_config-Loads fuel enough in
      let same : loads.result ≡ result = returned (sym loads.ends ∙ e) in
      let (quiet, read_it, sound) =
        loads.sound config (ap (λ (r : ConfigLoadResult). r.config) same ∙ h) in
      (sym (ap (λ (r : ConfigLoadResult). r.errors) same) ∙ quiet, read_it, sound)
    where
      returned : {a b : ConfigLoadResult} → returns a ≡ returns b → a ≡ b
      returned h = cc

-- On a config with version 1, valid environments, ports in range and chains of parents that end,
-- which is what the loader gives out, and with fuel for its environments, the plan builder returns
-- for every filter and for none.
pub build_resolved_plan-returns :
    (config : Config) (config_path : String) (env_filter : Option String) (fuel : ℕ)
    → IsLoadable config
    → length config.environments ≤ fuel
    → (result : PlanBuildResult) × (build_resolved_plan fuel config config_path env_filter
        ≡ returns result)
unfolding build_resolved_plan
build_resolved_plan-returns config config_path none fuel valid enough =
    let b = build_resolved_plan_unfiltered config fuel config_path valid.chains enough in
    (b.result, b.ends)
build_resolved_plan-returns config config_path (some name) fuel valid enough =
    elim (Bool-cases (has_key name config.environments)) [
      | inl k ↦
          let b =
            build_resolved_plan_filtered config fuel config_path name
              (chain_of_key config config.environments name valid.chains k) enough in
          (b.result, b.ends)
      | inr k ↦ rw k (_, refl)
    ]
