-- ===== src/Cli/Start.antt =====
-- src/cli/cli.cpp: starting a session's processes, anew or as they were. `UtcNowString`, the process
-- runner's `Start` and `WaitForForwardReady` on the system's state are parameters.
pub mod Laws
pub mod Restore
use kubeforward.Base.{
  String, ◌<>◌, Bool, true, false, ◌||◌, Option, none, some, List, [], ◌∷◌, ◌++◌, if◌then◌else◌,
  map,
}
use kubeforward.Base.Int.{ℤ}
use kubeforward.Plan.Types.{ResolvedEnvironment}
use kubeforward.Session.{ManagedForwardProcess, ManagedSession, RuntimeState}
use kubeforward.Conflicts.{port_bind_address}
use kubeforward.Cli.Requests.{Result, done, failed, StartProcessRequest, PreparedForwardLaunch}
use kubeforward.Cli.Launch.{build_prepared_launches_from_session}
use kubeforward.Cli.Sessions.{remove_matching_sessions}
use kubeforward.Cli.Down.{System, stop_started_session}

-- A launch, with the process that is recorded for the pid that it gets.
pub record Pending : Type 0 where
  pub launch : PreparedForwardLaunch
  pub process : ℤ → ManagedForwardProcess

-- `UtcNowString` is called for the id and again for the start.
unfoldable pub make_managed_session :
    String → ResolvedEnvironment → Bool → String → String → ManagedSession
make_managed_session normalized_config_path resolved_env daemon id_time utc_now = record {
  id = normalized_config_path <> "::" <> resolved_env.name <> "::" <> id_time;
  config_path = normalized_config_path;
  environment = resolved_env.name;
  daemon = daemon;
  started_at_utc = utc_now;
  forwards = [];
}

unfoldable pub new_process : String → PreparedForwardLaunch → Pending
new_process environment launch = record {
  launch = launch;
  process = λ pid. record {
    environment = environment;
    forward_name = launch.forward_name;
    argv = launch.request.argv;
    cwd = launch.request.cwd;
    log_path = launch.request.log_path;
    bind_address = port_bind_address launch.port;
    local_port = launch.port.local_port;
    remote_port = launch.port.remote_port;
    protocol = launch.port.protocol;
    pid = pid;
  };
}

-- The launches with the forwards of the snapshot, by index.
unfoldable pub restored_processes :
    List PreparedForwardLaunch → List ManagedForwardProcess → List Pending
restored_processes [] forwards = []
restored_processes (launch ∷ launches) [] = []
restored_processes (launch ∷ launches) (snapshot_forward ∷ forwards) =
    record {
      launch = launch;
      process = λ pid. record snapshot_forward {
        argv = launch.request.argv;
        cwd = launch.request.cwd;
        log_path = launch.request.log_path;
        pid = pid;
      };
    }
    ∷ restored_processes launches forwards

module _ (S : System) (start : StartProcessRequest → S.State → Result ℤ × S.State)
    (skip_readiness_check : Bool)
    (wait_for_forward_ready : ManagedForwardProcess → S.State → Option String × S.State) where
  unfoldable pub ready_error : ManagedForwardProcess → S.State → Option String × S.State
  ready_error process st =
      if S.use_noop_runner || skip_readiness_check
      then (none, st)
      else wait_for_forward_ready process st

  abbrev pub with_process : ManagedSession → ManagedForwardProcess → ManagedSession
  with_process session process = record session { forwards = session.forwards ++ process ∷ [] }

  -- The loop of both functions; `verb` is the word that differs in their messages.
  unfoldable pub start_all :
      String → List Pending → ManagedSession → S.State → Result ManagedSession × S.State
  start_all verb [] session st = (done session, st)
  start_all verb (pending ∷ rest) session st =
      let (started, st') = start pending.launch.request st in
      elim started [
        | failed start_error ↦ (
          failed (
              "failed to " <> verb <> " forward '" <> pending.launch.forward_name <> "': "
              <> start_error),
          (stop_started_session S session st').1,
        )
        | done pid ↦
            let session' = with_process session (pending.process pid) in
            let (error, st'') = ready_error (pending.process pid) st' in
            elim error [
              | some not_ready ↦ (failed not_ready, (stop_started_session S session' st'').1)
              | none ↦ start_all verb rest session' st''
            ]
      ]

  -- `StartManagedSession` for a plan.
  unfoldable pub start_managed_session :
      String
      → ResolvedEnvironment
      → Bool
      → List PreparedForwardLaunch
      → String
      → String
      → S.State
      → Result ManagedSession × S.State
  unfolding start_all
  start_managed_session normalized_config_path resolved_env daemon launches id_time utc_now st =
      start_all "start" (map (new_process resolved_env.name) launches)
        (make_managed_session normalized_config_path resolved_env daemon id_time utc_now) st

  -- `StartManagedSession` for a snapshot.
  unfoldable pub restore_managed_session :
      ManagedSession → List PreparedForwardLaunch → S.State → Result ManagedSession × S.State
  unfolding start_all
  restore_managed_session snapshot launches st =
      start_all "restore" (restored_processes launches snapshot.forwards)
        (record snapshot { forwards = [] }) st

  -- The clean-up of the sessions that were restored.
  unfoldable pub stop_restored : List ManagedSession → S.State → S.State
  stop_restored [] st = st
  stop_restored (session ∷ sessions) st =
      stop_restored sessions (stop_started_session S session st).1

  -- One snapshot: its launches, and its session.
  unfoldable pub restore_snapshot : ManagedSession → S.State → Result ManagedSession × S.State
  unfolding restore_managed_session
  restore_snapshot snapshot st = elim (build_prepared_launches_from_session snapshot) [
    | failed error ↦ (failed error, st)
    | done launches ↦ restore_managed_session snapshot launches st
  ]

  -- The loop over the snapshots, with the sessions that it restored so far.
  unfoldable pub restore_sessions :
      List ManagedSession
      → List ManagedSession
      → RuntimeState
      → S.State
      → Result (List ManagedSession × RuntimeState) × S.State
  restore_sessions [] restored rollback_state st = (done (restored, rollback_state), st)
  restore_sessions (snapshot ∷ snapshots) restored rollback_state st =
      let (outcome, st') = restore_snapshot snapshot st in
      elim outcome [
        | failed error ↦ (failed error, stop_restored restored st')
        | done session ↦
            let removed =
              remove_matching_sessions rollback_state snapshot.config_path snapshot.environment in
            restore_sessions snapshots (restored ++ session ∷ [])
              (record { sessions = removed.sessions ++ session ∷ [] }) st'
      ]

  -- `RestoreReplacedSessions`; `save` gives the error of `SaveState`, if there is one.
  unfoldable pub restore_replaced_sessions :
      (RuntimeState → Option String)
      → RuntimeState
      → List ManagedSession
      → S.State
      → Result RuntimeState × S.State
  unfolding restore_sessions
  restore_replaced_sessions save original_state sessions_to_restore st =
      let (outcome, st') = restore_sessions sessions_to_restore [] original_state st in
      elim outcome [
        | failed error ↦ (failed error, st')
        | done (restored, rollback_state) ↦ elim (save rollback_state) [
          | none ↦ (done rollback_state, st')
          | some save_error ↦ (
            failed ("failed to restore previous session state: " <> save_error),
            stop_restored restored st',
          )
        ]
      ]
