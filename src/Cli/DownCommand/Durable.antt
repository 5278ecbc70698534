-- ===== src/Cli/DownCommand/Durable.antt =====
-- After a `down` that succeeded, the state file holds what it reports.
use kubeforward.Base.{
  ◌≡◌, inl, inr, String, false, Option, [], empty, Bool-cases, Option-cases, arith,
}
use kubeforward.Session.{RuntimeState}
use kubeforward.Store.Nodes.{NodesLaws}
use kubeforward.Store.Files.{Saving, Loading}
use kubeforward.Store.Files.Durable.{Works, loaded, load_state-save_state}
use kubeforward.Cli.Requests.{done}
use kubeforward.Cli.Options.{CommandOptions, goes_on_lem}
use kubeforward.Cli.Sessions.{matching_sessions}
use kubeforward.Cli.Down.{down}
use kubeforward.Cli.Down.Laws.{other_sessions, down_iff}
use kubeforward.Cli.Machine.{Machine, Disks, normalize_path, state_path, load_at, save_at}
use kubeforward.Cli.DownCommand.{down_loaded, down_options, run_down_command}

module _ (M : Machine) (laws : NodesLaws M.nodes) (options : CommandOptions) (reading : Loading)
    (works : Works reading) where
  abbrev config : String
  config = normalize_path M options.config_path

  abbrev file : String
  file = state_path M options.config_path

  -- A state is read back with no session of the config and the environment of the options, and with
  -- the other sessions of the one before.
  abbrev pub Downed : RuntimeState → Disks M → Type 0
  Downed before disk =
      (after : RuntimeState) × ((load_at M reading file disk).0 ≡ loaded after)
      × (matching_sessions after config options.env_filter ≡ [])
      × (other_sessions M.system config options.env_filter after.sessions
          ≡ other_sessions M.system config options.env_filter before.sessions)

  module _ (saving : Saving M.nodes.Contents) (state : RuntimeState) (disk : Disks M)
      (st : M.system.State) where
    abbrev save : RuntimeState → Option String
    save s = (save_at M saving file disk s).error

    abbrev downed : RuntimeState
    downed = (down M.system config options.env_filter save state st).1

    down_loaded-Downed :
        (down_loaded M options saving state disk st).output.code ≡ 0
        → Downed state (down_loaded M options saving state disk st).disk
    unfolding down_loaded
    down_loaded-Downed h = elim (Option-cases (save downed)) [
      | inr (error, s) ↦ absurd (omega (arith, rw (s, down_loaded) at h))
      | inl s ↦
          let (exit, others) = down_iff M.system config options.env_filter save state st in
          (
            downed,
            load_state-save_state M.nodes laws M.parent_path file downed saving reading disk works
                s,
            (exit.0 (rw (s, down_loaded) at h)).1,
            others,
          )
    ]

  down_options-Downed :
      (calls : Loading) (saving : Saving M.nodes.Contents) (disk : Disks M) (st : M.system.State)
      → (down_options M options calls saving disk st).output.code ≡ 0
      → Downed
          (load_at M calls file disk).0.state
          (down_options M options calls saving disk st).disk
  unfolding down_options
  down_options-Downed calls saving disk st h =
      elim (Bool-cases (empty (load_at M calls file disk).0.errors)) [
        | inr e ↦ absurd (omega (arith, rw (e, down_options) at h))
        | inl e ↦
            rw (e, down_options)
              (down_loaded-Downed saving (load_at M calls file disk).0.state
                (load_at M calls file disk).1 st (rw (e, down_options) at h))
      ]

  -- Under the laws of the nodes that yaml-cpp builds, writes and loads, for options that do not ask
  -- for help: after a `down` that exits with 0, reading the state file again, with calls that all
  -- work, gives no session of the config and the environment of the options (of any environment, if
  -- none is named) and all the other sessions that the command had loaded, in their order.
  pub run_down_command-Downed :
      (help : String) (calls : Loading) (saving : Saving M.nodes.Contents) (disk : Disks M)
      (st : M.system.State)
      → options.show_help ≡ false
      → (run_down_command M (done options) help calls saving disk st).output.code ≡ 0
      → Downed
          (load_at M calls file disk).0.state
          (run_down_command M (done options) help calls saving disk st).disk
  unfolding run_down_command
  run_down_command-Downed help calls saving disk st shown h =
      let p = goes_on_lem "down" options help shown in
      rw (p, run_down_command)
        (down_options-Downed calls saving disk st (rw (p, run_down_command) at h))
