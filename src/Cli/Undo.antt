-- ===== src/Cli/Undo.antt =====
-- A `down` after an `up`.
use kubeforward.Base.{
  ℕ, ◌≡◌, refl, sym, ap, ◌∙◌, inl, inr, String, true, false, ◌&&◌, List, [], ◌∷◌, ◌==◌, string_eq,
  is_empty, subst, Bool-cases, arith,
}
use kubeforward.Base.Run.{Run, returns}
use kubeforward.Loader.Load.{ConfigLoadResult}
use kubeforward.Session.{ManagedSession, RuntimeState}
use kubeforward.Store.Nodes.{NodesLaws}
use kubeforward.Store.Files.{Saving, Loading}
use kubeforward.Store.Files.Durable.{Works, loaded}
use kubeforward.Cli.Requests.{done}
use kubeforward.Cli.Options.{CommandOptions}
use kubeforward.Cli.Sessions.{matching_sessions, matching_sessions_from}
use kubeforward.Cli.Sessions.View.{
  SessionMap, Represents, sessions_of, listed, clear, assign, matching-eq-sessions_of,
}
use kubeforward.Cli.Down.{System}
use kubeforward.Cli.Down.Laws.{other_sessions}
use kubeforward.Cli.Machine.{Machine, Disks, normalize_path, state_path, load_at}
use kubeforward.Cli.DownCommand.{run_down_command}
use kubeforward.Cli.DownCommand.Durable.{run_down_command-Downed}
use kubeforward.Cli.UpCommand.{UpCalls, serves, run_up_command}
use kubeforward.Cli.UpCommand.Durable.{Upped, Holds, run_up_command-Upped}

module _ (S : System) (path env : String) (named : is_empty env ≡ false) where
  sessions_of-other_sessions :
      (sessions : List ManagedSession) (p e : String)
      → (path == p && env == e) ≡ false
      → sessions_of (other_sessions S path env sessions) p e ≡ sessions_of sessions p e
  sessions_of-other_sessions [] p e h = refl
  sessions_of-other_sessions (x ∷ xs) p e h =
      let ih = sessions_of-other_sessions xs p e h in ground arith

  sessions_of_none :
      (sessions : List ManagedSession) (p e : String)
      → matching_sessions_from sessions path env ≡ []
      → (path == p && env == e) ≡ true
      → sessions_of sessions p e ≡ []
  sessions_of_none sessions p e none_matches h =
      let q = sym (matching-eq-sessions_of sessions path env named) ∙ none_matches in ground arith

  -- Without the sessions of a pair and with the same others, a state stands for the map in which the
  -- pair's place is empty.
  cleared-Represents :
      (before after : List ManagedSession) (m : SessionMap)
      → Represents before m
      → matching_sessions_from after path env ≡ []
      → other_sessions S path env after ≡ other_sessions S path env before
      → Represents after (clear path env m)
  cleared-Represents before after m h none_matches others p e =
      elim (Bool-cases (path == p && env == e)) [
        | inl y ↦ rw y (sessions_of_none after p e none_matches y)
        | inr n ↦ rw n (
            sym (sessions_of-other_sessions after p e n)
            ∙ ap (λ ss. sessions_of ss p e) others
            ∙ sessions_of-other_sessions before p e n
            ∙ h p e)
      ]

  clear-assign :
      (session : ManagedSession) (m : SessionMap)
      → session.config_path ≡ path
      → session.environment ≡ env
      → (p e : String) → clear path env (assign session m) p e ≡ clear path env m p e
  clear-assign session m a b p e = ground arith

module _ (M : Machine) (laws : NodesLaws M.nodes) (options : CommandOptions) (reading : Loading)
    (works : Works reading) (saving : Saving M.nodes.Contents)
    (named : is_empty options.env_filter ≡ false) (shown : options.show_help ≡ false) where
  abbrev config : String
  config = normalize_path M options.config_path

  -- The state file is read back as a state that stands for the map.
  abbrev pub HoldsMap : Disks M → SessionMap → Type 0
  HoldsMap disk m =
      (after : RuntimeState) × ((load_at M reading (state_path M options.config_path) disk).0
        ≡ loaded after)
      × Represents after.sessions m

  run_down_command-HoldsMap :
      (help : String) (disk : Disks M) (st : M.system.State) (m : SessionMap)
      → HoldsMap disk m
      → (run_down_command M (done options) help reading saving disk st).output.code ≡ 0
      → HoldsMap
          (run_down_command M (done options) help reading saving disk st).disk
          (clear config options.env_filter m)
  unfolding matching_sessions
  run_down_command-HoldsMap help disk st m (before, r, h) k =
      let (after, r', none_matches, others) =
        run_down_command-Downed M laws options reading works help reading saving disk st shown k in
      let same = ap (λ l. other_sessions M.system config options.env_filter l.state.sessions) r in
      (
        after,
        r',
        cleared-Represents M.system config options.env_filter named before.sessions after.sessions m
            h none_matches (others ∙ same),
      )

  module _ (calls : UpCalls M) (foreground_fuel : ℕ) (disk : Disks M) (m : SessionMap)
      (h : Represents
        (load_at M reading (state_path M options.config_path) disk).0.state.sessions
        m) where
    -- Under the laws of the nodes, for options that name an environment and do not ask for help,
    -- where the state that is loaded stands for a map with at most one session for each config and
    -- environment, and loading works: after an `up` that leaves its session running without being
    -- attached, and then a `down` with the same options that exits with 0, the state file is read
    -- back as the map before the `up`, but with no session for this config and environment.
    pub run_down_command-run_up_command :
        (help : String) (fuel : ℕ) (load : String → Run ConfigLoadResult) (st st' : M.system.State)
        (text : String) (left : Disks M)
        → run_up_command M calls foreground_fuel fuel load
            (done options)
            help
            reading
            saving
            disk
            st
          ≡ returns (serves text left)
        → (run_down_command M (done options) help reading saving left st').output.code ≡ 0
        → HoldsMap
            (run_down_command M (done options) help reading saving left st').disk
            (clear config options.env_filter m)
    run_down_command-run_up_command help fuel load st st' text left u k =
        let upped : Upped M laws calls foreground_fuel options reading reading works saving disk m h
            left =
          subst (Holds M laws calls foreground_fuel options reading reading works saving disk m h) u
            (run_up_command-Upped M laws calls foreground_fuel options reading reading works saving
              disk m h help fuel load st shown) in
        let (session, after, back, same_path, chosen, holds) = upped in
        let (after', r, holds') =
          run_down_command-HoldsMap help left st' (assign session m) (after, back, holds) k in
        let same_name : session.environment ≡ options.env_filter = elim chosen [
          | inl e ↦ absurd cc
          | inr e ↦ e
        ] in
        (
          after',
          r,
          λ p e.
              holds' p e
              ∙ ap listed (
                  clear-assign M.system config options.env_filter named session m same_path
                    same_name p e),
        )
