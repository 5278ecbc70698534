-- ===== src/Store/Files.antt =====
-- src/runtime/state_store.cpp: `LoadState` and `SaveState`. A disk is the contents under each path;
-- `SaveState` also gives the disks that another process could have seen before the last one. What
-- the system calls and the paths of the file system answer is a parameter.
pub mod Atomic
pub mod Durable
use kubeforward.Base.{
  ℕ, String, ◌<>◌, Bool, true, false, not, Option, none, some, List, [], ◌∷◌, ◌++◌, ◌==◌, string_eq,
  if◌then◌else◌, is_empty, empty, map, to_string,
}
use kubeforward.Session.{RuntimeState}
use kubeforward.Yaml.{Yaml}
use kubeforward.Loader.Load.{Parsed, parsed, parser_exception}
use kubeforward.Store.Nodes.{Nodes}
use kubeforward.Store.Serialize.{serialize_state}
use kubeforward.Store.Parse.{parse_state_node}

-- `open` and `flock` of the lock file: an error's text, or none.
pub record Locking : Type 0 where
  pub open_lock : Option String
  pub flock : Option String

-- What the calls of one `SaveState` answer. `written` is what the temporary file holds, one after the
-- other and newest first, while the stream writes to it.
pub record Saving (Contents : Type 0) : Type 0 where
  pub create_directories : Option String
  pub locking : Locking
  pub pid : ℕ
  pub open_temporary : Bool
  pub written : List Contents
  pub good : Bool
  pub rename : Option String
  pub remove : Bool

-- What the calls of one `LoadState` answer: whether the parent is there (`none` is an error), and
-- whether a file that is there can be opened.
pub record Loading : Type 0 where
  pub parent_exists : Option Bool
  pub locking : Locking
  pub open_input : Bool

pub record StateLoadResult : Type 0 where
  pub state : RuntimeState
  pub errors : List String

-- `StateLoadResult::ok`
abbrev pub load_ok : StateLoadResult → Bool
load_ok result = empty result.errors

abbrev pub no_sessions : RuntimeState
no_sessions = record { sessions = [] }

abbrev pub state_lock_path : String → String
state_lock_path path = path <> ".lock"

abbrev pub build_temporary_state_path : ℕ → String → String
build_temporary_state_path pid path = path <> (".tmp." <> to_string pid)

-- The environment variable, `absolute` with `lexically_normal` (`none` is an error), `std::hash` and
-- the directory for temporary files are parameters.
module _ (override_path : Option String) (absolute_normal : String → Option String)
    (hash : String → ℕ) (temp_directory_path : String) where
  abbrev pub normalize_config_path : String → String
  normalize_config_path config_path = elim (absolute_normal config_path) [
    | none ↦ config_path
    | some path ↦ path
  ]

  abbrev pub hashed_state_path : String → String
  hashed_state_path config_path =
      temp_directory_path
      <> "/kubeforward/state-"
      <> to_string (hash (normalize_config_path config_path))
      <> ".yaml"

  unfoldable pub default_state_path_for_config : String → String
  default_state_path_for_config config_path = elim override_path [
    | none ↦ hashed_state_path config_path
    | some path ↦ if is_empty path then hashed_state_path config_path else path
  ]

module _ (N : Nodes) (parent_path : String → String) where
  open N use {Contents, empty_contents}

  abbrev pub Disk : Type 0
  Disk = String → Option Contents

  abbrev pub put : String → Option Contents → Disk → Disk
  put path contents disk other = if path == other then contents else disk other

  -- `O_CREAT`: an empty file, unless one is there.
  abbrev pub create : String → Disk → Disk
  create path disk =
      put path (elim (disk path) [ none ↦ some empty_contents | some c ↦ some c ]) disk

  -- `OpenAndLockStateFile`: the error, if there is one.
  unfoldable pub open_and_lock_state_file : Locking → String → Disk → Option String × Disk
  open_and_lock_state_file calls path disk = elim calls.open_lock [
    | some error ↦ (some ("failed to open state lock file: " <> error), disk)
    | none ↦ elim calls.flock [
      | some error ↦
          (some ("failed to lock state file: " <> error), create (state_lock_path path) disk)
      | none ↦ (none, create (state_lock_path path) disk)
    ]
  ]

  -- What follows `is_open` in `LoadState`.
  unfoldable pub load_contents : Option Contents → StateLoadResult
  load_contents none = record { state = no_sessions; errors = [] }
  load_contents (some contents) = elim (N.yaml_load contents) [
    | parser_exception what ↦ record {
      state = no_sessions;
      errors = ("state parse error: " <> what) ∷ [];
    }
    | parsed root ↦
        let (state, errors) = parse_state_node N root in record { state = state; errors = errors }
  ]

  -- Below the check of the parent directory.
  unfoldable pub load_locked : Loading → String → Disk → StateLoadResult × Disk
  unfolding open_and_lock_state_file load_contents
  load_locked calls path disk =
      let (lock_error, disk') = open_and_lock_state_file calls.locking path disk in
      (
        elim lock_error [
          | some error ↦ record { state = no_sessions; errors = error ∷ [] }
          | none ↦ load_contents (if calls.open_input then disk' path else none)
        ],
        disk',
      )

  unfoldable pub load_state : Loading → String → Disk → StateLoadResult × Disk
  unfolding load_locked
  load_state calls path disk =
      if is_empty (parent_path path)
      then load_locked calls path disk
      else elim calls.parent_exists [
        | some true ↦ load_locked calls path disk
        | _ ↦ (record { state = no_sessions; errors = [] }, disk)
      ]

  -- The error, the disk at the end, and those before it.
  pub record Saved : Type 0 where
    pub error : Option String
    pub disk : Disk
    pub passed : List Disk

  -- The disk once the writing has stopped.
  abbrev pub last_of : List Disk → Disk → Disk
  last_of [] disk = disk
  last_of (d ∷ ds) disk = d

  abbrev pub remove_temporary : Bool → String → Disk → Disk
  remove_temporary works tmp_path disk = if works then put tmp_path none disk else disk

  abbrev pub rename_file : String → String → Disk → Disk
  rename_file from to disk other =
      if to == other then disk from else if from == other then none else disk other

  -- From the opening of the temporary file on.
  unfoldable pub write_state : Saving Contents → String → Contents → Disk → Saved
  write_state calls path contents disk =
      let tmp_path = build_temporary_state_path calls.pid path in
      let opened = put tmp_path (some empty_contents) disk in
      let writing = map (λ c. put tmp_path (some c) disk) calls.written in
      let complete = put tmp_path (some contents) disk in
      if not calls.open_temporary
      then record {
        error = some "failed to open temporary state file for writing";
        disk = disk;
        passed = [];
      }
      else if not calls.good
      then record {
        error = some "failed to flush temporary state file";
        disk = remove_temporary calls.remove tmp_path (last_of writing opened);
        passed = writing ++ opened ∷ disk ∷ [];
      }
      else elim calls.rename [
        | some message ↦ record {
          error = some ("failed to replace state file atomically: " <> message);
          disk = remove_temporary calls.remove tmp_path complete;
          passed = complete ∷ (writing ++ opened ∷ disk ∷ []);
        }
        | none ↦ record {
          error = none;
          disk = rename_file tmp_path path complete;
          passed = complete ∷ (writing ++ opened ∷ disk ∷ []);
        }
      ]

  -- From the lock on.
  unfoldable pub save_locked : Saving Contents → String → RuntimeState → Disk → Saved
  save_locked calls path state disk =
      let (lock_error, disk') = open_and_lock_state_file calls.locking path disk in
      elim lock_error [
        | some error ↦ record { error = some error; disk = disk'; passed = [] }
        | none ↦ write_state calls path (N.write (serialize_state N state)) disk'
      ]

  unfoldable pub save_state : Saving Contents → String → RuntimeState → Disk → Saved
  save_state calls path state disk =
      if is_empty (parent_path path)
      then save_locked calls path state disk
      else elim calls.create_directories [
        | some message ↦ record {
          error = some ("failed to create state directory: " <> message);
          disk = disk;
          passed = [];
        }
        | none ↦ save_locked calls path state disk
      ]
