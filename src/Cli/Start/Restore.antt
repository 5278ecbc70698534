-- ===== src/Cli/Start/Restore.antt =====
-- Restoring the sessions that `up` stopped gives them back as they were, but for their pids.
use kubeforward.Base.{
  ◌≡◌, refl, sym, ap, ◌∙◌, inl, inr, String, Bool, Option, none, List, [], ◌∷◌, ◌++◌, map, empty,
  Bool-cases, Option-cases, subst,
}
use kubeforward.Base.Int.{ℤ, pos}
use kubeforward.Session.{ManagedForwardProcess, ManagedSession, RuntimeState}
use kubeforward.Cli.Requests.{Result, done, failed, StartProcessRequest, PreparedForwardLaunch}
use kubeforward.Cli.Launch.{restored_launch, restore_launches, build_prepared_launches_from_session}
use kubeforward.Cli.Sessions.{remove_matching_sessions}
use kubeforward.Cli.Sessions.View.{SessionMap, Represents, assign, put_at-Represents}
use kubeforward.Cli.Down.{System}
use kubeforward.Cli.Start.{
  restored_processes, restore_managed_session, restore_snapshot, restore_sessions,
  restore_replaced_sessions,
}
use kubeforward.Cli.Start.Laws.{Result-cases, Started, start_all-Outcome}

abbrev pub without_pid : ManagedForwardProcess → ManagedForwardProcess
without_pid forward = record forward { pid = pos 0 }

abbrev pub without_pids : ManagedSession → ManagedSession
without_pids session = record session { forwards = map without_pid session.forwards }

-- The map in which the sessions have been replaced, one after the other, by sessions that differ from
-- them in the pids of their processes at most.
abbrev pub Restored : List ManagedSession → SessionMap → SessionMap → Type 0
Restored [] m m' = m' ≡ m
Restored (snapshot ∷ snapshots) m m' =
    (session : ManagedSession) × (without_pids session ≡ without_pids snapshot)
    × Restored snapshots (assign session m) m'

restore_launches-map :
    (session : ManagedSession) (forwards : List ManagedForwardProcess)
    (launches : List PreparedForwardLaunch)
    → restore_launches session forwards ≡ done launches
    → launches ≡ map (restored_launch session) forwards
unfolding restore_launches
restore_launches-map session [] launches h = cc
restore_launches-map session (forward ∷ forwards) launches h =
    elim (Bool-cases (empty forward.argv)) [
      | inl e ↦ absurd (cc (rw (e, restore_launches) at h))
      | inr e ↦ elim (Result-cases (restore_launches session forwards)) [
        | inl (error, r) ↦ absurd (cc (rw (e, r, restore_launches) at h))
        | inr (rest, r) ↦
            let ih = restore_launches-map session forwards rest r in
            let same = rw (e, r, restore_launches) at h in
            let q : restored_launch session forward ∷ rest ≡ launches = cc (same) in
            sym q ∙ ap (◌∷◌ (restored_launch session forward)) ih
      ]
    ]

module _ (S : System) (start : StartProcessRequest → S.State → Result ℤ × S.State) (skip : Bool)
    (wait : ManagedForwardProcess → S.State → Option String × S.State) where
  Started-without_pid :
      (session : ManagedSession) (forwards processes : List ManagedForwardProcess)
      (st st' : S.State)
      → Started S start skip wait
          (restored_processes (map (restored_launch session) forwards) forwards)
          st
          processes
          st'
      → map without_pid processes ≡ map without_pid forwards
  unfolding restored_processes
  Started-without_pid session [] processes st st' h = rw h.0
  Started-without_pid session (forward ∷ forwards) processes st st' (pid, rest, s, r, split, h) =
      rw split (ap (◌∷◌ (without_pid forward)) (Started-without_pid session forwards rest _ st' h))

  abbrev Same : ManagedSession → Result ManagedSession → Type 0
  Same snapshot (done session) = without_pids session ≡ without_pids snapshot
  Same snapshot (failed error) = Unit

  restore_managed_session-Same :
      (snapshot : ManagedSession) (st : S.State)
      → Same snapshot
          (restore_managed_session S start skip wait snapshot
            (map (restored_launch snapshot) snapshot.forwards)
            st).0
  unfolding restore_managed_session
  restore_managed_session-Same snapshot st =
      elim (start_all-Outcome S start skip wait "restore"
        (restored_processes (map (restored_launch snapshot) snapshot.forwards) snapshot.forwards)
        (record snapshot { forwards = [] }) st) [
          | inl (processes, h, o) ↦ subst (Same snapshot) (sym o) (
              ap (λ fs. record snapshot { forwards = fs })
                (Started-without_pid snapshot snapshot.forwards processes st _ h))
          | inr (_, _, _, _, _, _, _, _, _, _, _, o, _) ↦ subst (Same snapshot) (sym o) tt
        ]

  restore_snapshot_same :
      (snapshot session : ManagedSession) (st : S.State)
      → (restore_snapshot S start skip wait snapshot st).0 ≡ done session
      → without_pids session ≡ without_pids snapshot
  unfolding restore_snapshot build_prepared_launches_from_session
  restore_snapshot_same snapshot session st h =
      elim (Result-cases (restore_launches snapshot snapshot.forwards)) [
        | inl (error, r) ↦ absurd (cc (rw (r, restore_snapshot) at h))
        | inr (launches, r) ↦
            let l = restore_launches-map snapshot snapshot.forwards launches r in
            let h' = rw (r, l, restore_snapshot) at h in
            subst (Same snapshot) h' (restore_managed_session-Same snapshot st)
      ]

  restore_sessions-Restored :
      (snapshots restored restored' : List ManagedSession) (state state' : RuntimeState)
      (m : SessionMap) (st : S.State)
      → Represents state.sessions m
      → (restore_sessions S start skip wait snapshots restored state st).0
        ≡ done (restored', state')
      → (m' : SessionMap) × Restored snapshots m m' × Represents state'.sessions m'
  unfolding restore_sessions remove_matching_sessions
  restore_sessions-Restored [] restored restored' state state' m st h d =
      let e : state ≡ state' = cc (d) in (m, refl, subst (λ s. Represents s.sessions m) e h)
  restore_sessions-Restored (snapshot ∷ snapshots) restored restored' state state' m st h d =
      elim (Result-cases (restore_snapshot S start skip wait snapshot st).0) [
        | inl (error, r) ↦ absurd (cc (rw (r, restore_sessions) at d))
        | inr (session, r) ↦
            let e = restore_snapshot_same snapshot session st r in
            let (m', q, i) =
              restore_sessions-Restored snapshots (restored ++ session ∷ []) restored' _ state'
                (assign session m) (restore_snapshot S start skip wait snapshot st).1
                (put_at-Represents state.sessions m snapshot.config_path snapshot.environment
                  session (ap (λ s. s.config_path) e) (ap (λ s. s.environment) e) h)
                (rw (r, restore_sessions) at d) in
            (m', (session, e, q), i)
      ]

  -- When restoring replaced sessions succeeds, it gives a state that was saved, and that state is the
  -- original one in which each of them, in order, is in its place again as it was, but for the pids
  -- of its processes.
  pub restore_replaced_sessions-Restored :
      (save : RuntimeState → Option String) (original state' : RuntimeState)
      (snapshots : List ManagedSession) (m : SessionMap) (st : S.State)
      → Represents original.sessions m
      → (restore_replaced_sessions S start skip wait save original snapshots st).0 ≡ done state'
      → (save state' ≡ none)
        × (m' : SessionMap) × Restored snapshots m m'
        × Represents state'.sessions m'
  unfolding restore_replaced_sessions
  restore_replaced_sessions-Restored save original state' snapshots m st h d =
      elim (Result-cases (restore_sessions S start skip wait snapshots [] original st).0) [
        | inl (error, r) ↦ absurd (cc (rw (r, restore_replaced_sessions) at d))
        | inr ((restored, rolled_back), r) ↦ elim (Option-cases (save rolled_back)) [
          | inr (error, s) ↦ absurd (cc (rw (r, s, restore_replaced_sessions) at d))
          | inl s ↦
              let d' = rw (r, s, restore_replaced_sessions) at d in
              let e : rolled_back ≡ state' = cc (d') in
              let (m', q, i) =
                restore_sessions-Restored snapshots [] restored original rolled_back m st h r in
              (subst (λ x. save x ≡ none) e s, m', q, subst (λ x. Represents x.sessions m') e i)
        ]
      ]
