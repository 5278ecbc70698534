-- ===== src/Cli/PlanCommand/Total.antt =====
-- `plan` on any file: loading, checking, planning and printing end, and no `at` throws.
use kubeforward.Base.{
  ℕ, ◌≤◌, ◌≡◌, refl, sym, subst, ◌⊎◌, inl, inr, String, ◌<>◌, Option, none, some, List, [], ◌∷◌,
  length, is_empty, empty, Bool-cases, Option-cases, arith,
}
use kubeforward.Base.Map.{has_key, keys}
use kubeforward.Base.Run.{Run, returns}
use kubeforward.Config.{Config}
use kubeforward.Yaml.{Yaml, View, undefined, null, scalar, sequence, mapping}
use kubeforward.Plan.Resolve.{build_resolved_plan}
use kubeforward.Loader.Load.{
  Parsed, parsed, parser_exception, ConfigLoadResult, failed_load, parse_config, load_config,
  load_config_from_file,
}
use kubeforward.Loader.Load.Sound.{
  IsLoadable, chain_of_key, load_config-returns, load_config-IsLoadable,
}
use kubeforward.Cli.Requests.{Result, done, failed}
use kubeforward.Cli.Options.{Output, CommandOptions, stops, goes_on, parse_command_options}
use kubeforward.Cli.PlanCommand.{print_plan, plan_config, plan_loaded, run_plan_command}
use kubeforward.Cli.PlanCommand.Laws.{Prints, plan_config-Prints, plan_config_filtered}

-- The call returns an exit code of at most 2.
abbrev pub Returns : Run Output → Type 0
Returns run = (output : Output) × (run ≡ returns output) × (output.code ≤ 2)

Prints-Returns :
    (options : CommandOptions) (config : Config) (targets : List String) (chains : _)
    (run : Run Output)
    → Prints options config targets chains run
    → Returns run
Prints-Returns options config targets chains run (output, e, inl (_, c, _)) =
    (output, e, omega (arith, c))
Prints-Returns options config targets chains run (output, e, inr (_, c)) =
    (output, e, omega (arith, c))

plan_config-Returns :
    (options : CommandOptions) (config : Config) (fuel : ℕ)
    → IsLoadable config
    → length config.environments ≤ fuel
    → Returns (plan_config fuel options config)
unfolding plan_config print_plan build_resolved_plan
plan_config-Returns options config fuel valid enough =
    elim (Bool-cases (empty config.environments)) [
      | inl e ↦ rw (e, plan_config) (_, refl, omega arith)
      | inr e ↦ elim (Bool-cases (is_empty options.env_filter)) [
        | inl f ↦
            Prints-Returns options config (keys config.environments) valid.chains _
              (plan_config-Prints options config fuel valid.chains f e enough)
        | inr f ↦ elim (Bool-cases (has_key options.env_filter config.environments)) [
          | inl k ↦
              let chain =
                chain_of_key config config.environments options.env_filter valid.chains k in
              Prints-Returns options config (options.env_filter ∷ []) (chain, tt) _
                (plan_config_filtered options config fuel chain f e enough)
          | inr k ↦ rw (e, f, k, plan_config, build_resolved_plan) (_, refl, omega arith)
        ]
      ]
    ]

plan_loaded-Returns :
    (options : CommandOptions) (fuel : ℕ) (result : ConfigLoadResult)
    → ((config : Config)
        → result.config ≡ some config
        → IsLoadable config × (length config.environments ≤ fuel))
    → Returns (plan_loaded fuel options result)
unfolding plan_loaded
plan_loaded-Returns options fuel result sound = elim (Option-cases result.config) [
  | inl c ↦ rw (c, plan_loaded) (_, refl, omega arith)
  | inr (config, c) ↦
      let (valid, fits) = sound config c in
      rw (c, plan_loaded) (plan_config-Returns options config fuel valid fits)
]

-- The file that is to be read, if the arguments give options.
abbrev pub path_of : Result CommandOptions → String
path_of (failed what) = ""
path_of (done options) = options.config_path

Options-cases :
    (options : Result CommandOptions) (help : String)
    → ((output : Output) × (output.code ≤ 2)
        × (parse_command_options "plan" options help ≡ stops output))
      ⊎ ((o : CommandOptions) × (options ≡ done o)
          × (parse_command_options "plan" options help ≡ goes_on o))
unfolding parse_command_options
Options-cases (failed what) help =
    inl (record { code = 1; out = ""; err = "plan" <> ": " <> what <> "\n" }, omega arith, refl)
Options-cases (done o) help = elim (Bool-cases o.show_help) [
  | inl h ↦ inl (record { code = 0; out = help <> "\n"; err = "" }, omega arith, rw h)
  | inr h ↦ inr (o, refl, simp h)
]

module _ (Y : Yaml) (read_file : String → Option String) (yaml_load : String → Parsed Y.Node) where
  -- The number of environments that are read from the file.
  abbrev pub environments_read : String → ℕ
  environments_read path = elim (read_file path) [
    | none ↦ 0
    | some contents ↦ elim (yaml_load contents) [
      | parser_exception what ↦ 0
      | parsed root ↦ length (parse_config Y root).value.environments
    ]
  ]

  abbrev Loads : ℕ → Run ConfigLoadResult → Type 0
  Loads fuel run =
      (result : ConfigLoadResult) × (run ≡ returns result)
      × ((config : Config)
          → result.config ≡ some config
          → IsLoadable config × (length config.environments ≤ fuel))

  load_root-Loads :
      (fuel : ℕ) (root : Y.Node)
      → length (parse_config Y root).value.environments ≤ fuel
      → Loads fuel (load_config Y fuel root)
  load_root-Loads fuel root enough =
      let (result, e) = load_config-returns Y root fuel enough in
      (
        result,
        e,
        λ config h.
            let (_, same, valid) = load_config-IsLoadable Y root fuel result config enough e h in
            (valid, subst (λ (c : Config). length c.environments ≤ fuel) (sym same) enough),
      )

  failed-Loads :
      (fuel : ℕ) (path message : String) → Loads fuel (returns (failed_load Y path message))
  failed-Loads fuel path message = (failed_load Y path message, refl, λ config h. absurd (cc (h)))

  view-Loads :
      (fuel : ℕ) (v : View Y.Node) (read refused : Run ConfigLoadResult)
      → Loads fuel read
      → Loads fuel refused
      → Loads fuel (elim v [ mapping _ ↦ read | _ ↦ refused ])
  view-Loads fuel (mapping entries) read refused a b = a
  view-Loads fuel undefined read refused a b = b
  view-Loads fuel null read refused a b = b
  view-Loads fuel (scalar text) read refused a b = b
  view-Loads fuel (sequence nodes) read refused a b = b

  Parsed-cases :
      (p : Parsed Y.Node)
      → ((what : String) × (p ≡ parser_exception what)) ⊎ ((root : Y.Node) × (p ≡ parsed root))
  Parsed-cases (parser_exception what) = inl (what, refl)
  Parsed-cases (parsed root) = inr (root, refl)

  load_file-Loads :
      (fuel : ℕ) (path : String)
      → environments_read path ≤ fuel
      → Loads fuel (load_config_from_file Y read_file yaml_load fuel path)
  unfolding load_config_from_file
  load_file-Loads fuel path enough = elim (Option-cases (read_file path)) [
    | inl r ↦ rw (r, load_config_from_file) (failed-Loads fuel path _)
    | inr (contents, r) ↦ elim (Parsed-cases (yaml_load contents)) [
      | inl (what, y) ↦ rw (r, y, load_config_from_file) (failed-Loads fuel path _)
      | inr (root, y) ↦
          let enough' = rw (r, y, environments_read) at enough in
          rw (r, y, load_config_from_file)
            (view-Loads fuel (Y.view root) (load_config Y fuel root) _
              (load_root-Loads fuel root enough') (failed-Loads fuel path _))
    ]
  ]

  -- With fuel for the environments that the file of the options holds: `plan` returns, with an exit
  -- code of at most 2, whatever the arguments, the file and its contents are. No `at` throws, and no
  -- recursion along `extends` goes on for ever.
  pub run_plan_command-Returns :
      (fuel : ℕ) (options : Result CommandOptions) (help : String)
      → environments_read (path_of options) ≤ fuel
      → Returns
          (run_plan_command fuel (load_config_from_file Y read_file yaml_load fuel) options help)
  unfolding run_plan_command
  run_plan_command-Returns fuel options help enough = elim (Options-cases options help) [
    | inl (output, c, p) ↦ rw (p, run_plan_command) (output, refl, c)
    | inr (o, d, p) ↦
        let (result, e, sound) =
          load_file-Loads fuel o.config_path
            (subst (λ x. environments_read (path_of x) ≤ fuel) d enough) in
        rw (p, e, run_plan_command) (plan_loaded-Returns o fuel result sound)
  ]
