-- ===== src/Cli/DownCommand.antt =====
-- src/cli/cli.cpp: `RunDownCommand`, from the options to its exit code, its output and the state file
-- that it leaves. What it writes of a process that it cannot stop is left out.
pub mod Durable
pub mod Counts
use kubeforward.Base.{
  ℕ, ◌+◌, String, ◌<>◌, Bool, true, false, Option, none, some, List, [], ◌∷◌, if◌then◌else◌,
  is_empty, empty, length, to_string, leb, eqb,
}
use kubeforward.Base.Map.{Map, lookup, insert}
use kubeforward.Session.{ManagedSession, RuntimeState}
use kubeforward.Store.Files.{Saving, Loading, Saved, StateLoadResult}
use kubeforward.Cli.Requests.{Result}
use kubeforward.Cli.Options.{
  Output, CommandOptions, stops, goes_on, parse_command_options, run_mode,
}
use kubeforward.Cli.Print.{print_each, line}
use kubeforward.Cli.Sessions.{count_session_forwards, matching_sessions}
use kubeforward.Cli.Down.{System, Stopping, down}
use kubeforward.Cli.Machine.{
  Machine, Disks, normalize_path, state_path, load_at, save_at, state_load_failed,
  state_save_failed,
}

abbrev pub matched_forwards : List ManagedSession → ℕ
matched_forwards [] = 0
matched_forwards (session ∷ sessions) = count_session_forwards session + matched_forwards sessions

-- `counts[session->environment] += forward_count`, in which a missing count is 0.
unfoldable pub count_environment : ManagedSession → Map ℕ → Map ℕ
count_environment session counts =
    insert session.environment
      (elim (lookup session.environment counts) [
        | none ↦ count_session_forwards session
        | some n ↦ n + count_session_forwards session
      ])
      counts

-- The loop over the matched sessions; the keys of the map are the set of their environments.
unfoldable pub count_environments : List ManagedSession → Map ℕ → Map ℕ
unfolding count_environment
count_environments [] counts = counts
count_environments (session ∷ sessions) counts =
    count_environments sessions (count_environment session counts)

abbrev pub print_environment_count : String × ℕ → String
print_environment_count (name, count) =
    "    - " <> name <> " (" <> to_string count <> " forward(s))\n"

-- What a `down` that succeeds prints.
unfoldable pub print_down : CommandOptions → String → List ManagedSession → ℕ → String
unfolding count_environments
print_down options path matched stopped =
    "down: stopping forwards\n"
    <> line "  file: " options.config_path
    <> line "  mode: " (run_mode options.daemon)
    <> (if is_empty options.env_filter
        then "  scope: all environments\n"
          <> line "  environments: " (to_string (length (count_environments matched [])))
          <> line "  forwards: " (to_string (matched_forwards matched))
          <> (if options.verbose
              then line "  state: " path
                <> line "  stopped: " (to_string stopped)
                <> "  environment breakdown:\n"
                <> print_each print_environment_count (count_environments matched [])
              else "")
        else "  scope: environment\n"
          <> line "  env: " options.env_filter
          <> line "  forwards: " (to_string (matched_forwards matched))
          <> (if options.verbose
              then line "  state: " path
                <> line "  stopped: " (to_string stopped)
                <> line "  sessions: " (to_string (length matched))
              else ""))

module _ (M : Machine) where
  -- What the command leaves: its output, the files, and the system.
  pub record Left : Type 0 where
    pub output : Output
    pub disk : Disks M
    pub system : M.system.State

  -- From the loaded state on.
  unfoldable pub down_loaded :
      CommandOptions → Saving M.nodes.Contents → RuntimeState → Disks M → M.system.State → Left
  unfolding print_down
  down_loaded options calls state disk st =
      let path = state_path M options.config_path in
      let config = normalize_path M options.config_path in
      let save = λ (s : RuntimeState). (save_at M calls path disk s).error in
      let (code, state', s) = down M.system config options.env_filter save state st in
      record {
        output = elim (save state') [
          | some save_error ↦ state_save_failed "down" path save_error
          | none ↦ record {
            code = code;
            out =
                if eqb code 0
                then print_down options path (matching_sessions state config options.env_filter)
                    s.stopped_processes
                else "";
            err = "";
          }
        ];
        disk = (save_at M calls path disk state').disk;
        system = s.system;
      }

  -- After the options.
  unfoldable pub down_options :
      CommandOptions → Loading → Saving M.nodes.Contents → Disks M → M.system.State → Left
  unfolding down_loaded
  down_options options loading saving disk st =
      let path = state_path M options.config_path in
      let (result, disk') = load_at M loading path disk in
      if empty result.errors then down_loaded options saving result.state disk' st else record {
        output = state_load_failed "down" path result.errors;
        disk = disk';
        system = st;
      }

  unfoldable pub run_down_command :
      Result CommandOptions
      → String
      → Loading
      → Saving M.nodes.Contents
      → Disks M
      → M.system.State
      → Left
  unfolding down_options parse_command_options
  run_down_command parsed help loading saving disk st =
      elim (parse_command_options "down" parsed help) [
        | stops output ↦ record { output = output; disk = disk; system = st }
        | goes_on options ↦ down_options options loading saving disk st
      ]
