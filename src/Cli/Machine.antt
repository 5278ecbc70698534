-- ===== src/Cli/Machine.antt =====
-- What `up` and `down` run on: the operating system, yaml-cpp's nodes, and the paths that the system
-- gives. `override_path` is an environment variable; `absolute_normal` is `absolute` with
-- `lexically_normal`, in which `none` is an error.
use kubeforward.Base.{ℕ, String, ◌<>◌, Option, none, some, List}
use kubeforward.Session.{RuntimeState}
use kubeforward.Store.Nodes.{Nodes}
use kubeforward.Store.Files.{
  Saving, Loading, Saved, Disk, StateLoadResult, default_state_path_for_config, load_state,
  save_state,
}
use kubeforward.Cli.Options.{Output, refuses}
use kubeforward.Cli.Print.{print_each}
use kubeforward.Cli.Down.{System}

pub record Machine : Type 1 where
  pub system : System
  pub nodes : Nodes
  pub parent_path : String → String
  pub override_path : Option String
  pub absolute_normal : String → Option String
  pub hash : String → ℕ
  pub temp_directory_path : String

module _ (M : Machine) where
  abbrev pub Disks : Type 0
  Disks = Disk M.nodes M.parent_path

  unfoldable pub normalize_path : String → String
  normalize_path raw_path = elim (M.absolute_normal raw_path) [ none ↦ raw_path | some path ↦ path ]

  -- The state file of a config that is named in the options.
  unfoldable pub state_path : String → String
  unfolding default_state_path_for_config
  state_path config_path =
      default_state_path_for_config M.override_path M.absolute_normal M.hash M.temp_directory_path
        (normalize_path config_path)

  abbrev pub load_at : Loading → String → Disks → StateLoadResult × Disks
  load_at calls path disk = load_state M.nodes M.parent_path calls path disk

  abbrev pub save_at :
      Saving M.nodes.Contents → String → Disks → RuntimeState → Saved M.nodes M.parent_path
  save_at calls path disk state = save_state M.nodes M.parent_path calls path state disk

abbrev pub state_load_failed : String → String → List String → Output
state_load_failed command_name path errors = refuses (
    command_name
    <> ": failed to load runtime state '"
    <> path
    <> "'.\n"
    <> print_each (λ e. "  - " <> e <> "\n") errors)

abbrev pub state_save_failed : String → String → String → Output
state_save_failed command_name path save_error =
    refuses
      (command_name <> ": failed to save runtime state '" <> path <> "': " <> save_error <> "\n")
