-- ===== src/Loader/Load.antt =====
-- src/config/loader.cpp and include/kubeforward/config/loader.h: `LoadConfigFromFile`. The file
-- system and `YAML::Load` are parameters.
pub mod Ports
pub mod Ranges
pub mod Sound
use kubeforward.Base.{
  ℕ, String, ◌<>◌, Bool, true, false, not, ◌||◌, Option, none, some, List, [], ◌∷◌, ◌++◌, ◌==◌,
  if◌then◌else◌, is_empty, empty,
}
use kubeforward.Base.Int.{ℤ, pos, int_eq}
use kubeforward.Base.Map.{Map, emplace, has_key}
use kubeforward.Base.Run.{Run, returns}
use kubeforward.Base.Run
use kubeforward.Config.{Config, Metadata, EnvironmentDefinition}
use kubeforward.Yaml.{Yaml, View, undefined, null, scalar, sequence, mapping}
use kubeforward.Loader.Errors.{ConfigLoadError, Loaded, ◌>>=◌, ◌>>◌, return, add_error, skip}
use kubeforward.Loader.Scalars.{ensure_allowed_keys, read_optional_string, read_optional_int}
use kubeforward.Loader.Parts.{parse_target_defaults}
use kubeforward.Loader.Forwards.{parse_environment}
use kubeforward.Loader.Validate.{validate_environments, validate_global_forward_names}
use kubeforward.Loader.Extends.{validate_environment_extends}

pub record ConfigLoadResult : Type 0 where
  pub config : Option Config
  pub errors : List ConfigLoadError

-- What `YAML::Load` gives: a node, or the text of a `ParserException`.
pub data Parsed (Node : Type 0) : Type 0 where
  parsed : Node → Parsed Node
  parser_exception : String → Parsed Node

unfoldable pub accept_version : Option ℤ → Loaded ℤ
accept_version none = add_error "version" "schema version is required" >> return (pos 0)
accept_version (some version) =
    if version == pos 1
    then return version
    else (add_error "version" "only schema version 1 is supported" >> return version)

unfoldable pub accept_project : Option String → Loaded String
accept_project none = add_error "metadata.project" "project is required" >> return ""
accept_project (some project) =
    if is_empty project
    then (add_error "metadata.project" "project is required" >> return "")
    else return project

module _ (Y : Yaml) where
  open Y use {Node, view, child}

  unfoldable pub parse_metadata : Node → Loaded Metadata
  unfolding accept_project
  parse_metadata node = elim (view node) [
    | mapping _ ↦ do
      ensure_allowed_keys Y node "metadata" ("project" ∷ "owner" ∷ [])
      project_value ← read_optional_string Y (child node "project") "metadata.project"
      project ← accept_project project_value
      owner ← read_optional_string Y (child node "owner") "metadata.owner"
      return (record { project = project; owner = owner })
    | _ ↦
        add_error "metadata" "metadata block is required"
        >> return (record { project = ""; owner = none })
  ]

  -- The end of the loop's body: the environment that was parsed joins the map, unless its name is
  -- there.
  unfoldable pub join_environment :
      String
      → EnvironmentDefinition
      → Map EnvironmentDefinition
      → Loaded (Map EnvironmentDefinition)
  join_environment env_name env environments =
      if has_key env_name environments
      then (add_error ("environments." <> env_name) "duplicate environment definition"
          >> return environments)
      else return (emplace env_name env environments)

  -- The body of the loop over the environments, on the map so far.
  unfoldable pub add_environment :
      Node → Node → Map EnvironmentDefinition → Loaded (Map EnvironmentDefinition)
  unfolding join_environment
  add_environment first second environments = elim (view first) [
    | scalar env_name ↦
        if is_empty env_name
        then (add_error "environments" "environment name cannot be empty" >> return environments)
        else (parse_environment Y env_name second >>= λ env.
            join_environment env_name env environments)
    | _ ↦ add_error "environments" "environment name must be a string" >> return environments
  ]

  unfoldable pub parse_environment_entries :
      List (Node × Node) → Map EnvironmentDefinition → Loaded (Map EnvironmentDefinition)
  unfolding add_environment
  parse_environment_entries [] environments = return environments
  parse_environment_entries ((first, second) ∷ entries) environments =
      add_environment first second environments >>= λ environments'.
      parse_environment_entries entries environments'

  unfoldable pub parse_environments : Node → Loaded (Map EnvironmentDefinition)
  unfolding parse_environment_entries
  parse_environments node = elim (view node) [
    | mapping entries ↦ parse_environment_entries entries []
    | _ ↦
        add_error "environments" "environments block is required and must be a mapping" >> return []
  ]

  -- The config that is read from the top-level mapping.
  unfoldable pub parse_config : Node → Loaded Config
  unfolding accept_version parse_metadata parse_environments
  parse_config root = do
    ensure_allowed_keys Y root "root" ("version" ∷ "metadata" ∷ "defaults" ∷ "environments" ∷ [])
    version_value ← read_optional_int Y (child root "version") "version"
    version ← accept_version version_value
    metadata ← parse_metadata (child root "metadata")
    defaults ← parse_target_defaults Y (child root "defaults") "defaults" true
    environments ← parse_environments (child root "environments")
    return (record {
      version = version;
      metadata = metadata;
      defaults = defaults;
      environments = environments;
    })

  abbrev pub failed_load : String → String → ConfigLoadResult
  failed_load path message = record { config = none; errors = (add_error path message).errors }

  -- The config is given out only if no error was found.
  abbrev pub load_result : Config → List ConfigLoadError → ConfigLoadResult
  load_result config errors = record {
    config = elim errors [ [] ↦ some config | _ ∷ _ ↦ none ];
    errors = errors;
  }

  unfoldable pub load_config : ℕ → Node → Run ConfigLoadResult
  load_config fuel root =
      let read = parse_config root in
      Run.◌>>=◌ (validate_environment_extends fuel read.value) λ extends_errors. returns (
        load_result read.value (
          read.errors
          ++ ((validate_environments read.value.environments).errors
              ++ (extends_errors ++ (validate_global_forward_names read.value).errors))))

  module _ (read_file : String → Option String) (yaml_load : String → Parsed Node) where
    unfoldable pub load_config_from_file : ℕ → String → Run ConfigLoadResult
    unfolding load_config
    load_config_from_file fuel path = elim (read_file path) [
      | none ↦ returns (failed_load path "unable to open config file")
      | some contents ↦ elim (yaml_load contents) [
        | parser_exception what ↦ returns (failed_load path ("YAML parse error: " <> what))
        | parsed root ↦ elim (view root) [
          | mapping _ ↦ load_config fuel root
          | _ ↦ returns (failed_load path "expected top-level mapping")
        ]
      ]
    ]
