-- ===== src/Cli/Launch/Laws.antt =====
-- When the launches of an environment and of a session can be made.
use kubeforward.Base.{
  ◌≡◌, refl, ◌↔◌, inl, inr, none, List, [], ◌∷◌, map, empty, All, Bool-cases, Option-cases,
}
use kubeforward.Session.{ManagedForwardProcess, ManagedSession}
use kubeforward.Cli.Requests.{Result, done, failed, PreparedForwardLaunch}
use kubeforward.Cli.Launch.{
  push, restored_launch, restore_launches, build_prepared_launches_from_session,
  validate_forwards_support_rollback, validate_session_supports_rollback,
  validate_sessions_support_rollback,
}

push-map :
    (session : ManagedSession) (forward : ManagedForwardProcess)
    (forwards : List ManagedForwardProcess) (rest : Result (List PreparedForwardLaunch))
    → (rest ≡ done (map (restored_launch session) forwards)) ↔ (
        push (restored_launch session forward) rest
        ≡ done (map (restored_launch session) (forward ∷ forwards)))
push-map session forward forwards (done launches) = (λ h. cc, λ h. cc)
push-map session forward forwards (failed error) = (λ h. cc, λ h. cc)

restore_launches_iff :
    (session : ManagedSession) (forwards : List ManagedForwardProcess)
    → (validate_forwards_support_rollback session.id forwards ≡ none)
      ↔ (restore_launches session forwards ≡ done (map (restored_launch session) forwards))
unfolding validate_forwards_support_rollback restore_launches
restore_launches_iff session [] = (λ _. refl, λ _. refl)
restore_launches_iff session (forward ∷ forwards) = elim (Bool-cases (empty forward.argv)) [
  | inl e ↦ rw e (λ h. cc, λ h. cc)
  | inr e ↦
      let ih = restore_launches_iff session forwards in
      let p = push-map session forward forwards (restore_launches session forwards) in
      rw e (λ h. p.0 (ih.0 h), λ h. ih.1 (p.1 h))
]

-- `up` accepts the sessions that it would replace exactly when each of them can be restored: its
-- launches can be made, one for each of its forwards in order.
pub validate_sessions_support_rollback_iff :
    (sessions : List ManagedSession)
    → (validate_sessions_support_rollback sessions ≡ none)
      ↔ All
          (λ s. build_prepared_launches_from_session s ≡ done (map (restored_launch s) s.forwards))
          sessions
unfolding validate_sessions_support_rollback validate_session_supports_rollback
    build_prepared_launches_from_session
validate_sessions_support_rollback_iff [] = (λ _. tt, λ _. refl)
validate_sessions_support_rollback_iff (s ∷ sessions) =
    let one = restore_launches_iff s s.forwards in
    let rest = validate_sessions_support_rollback_iff sessions in
    elim (Option-cases (validate_forwards_support_rollback s.id s.forwards)) [
      | inl e ↦
          rw (e, validate_sessions_support_rollback, validate_session_supports_rollback)
            (λ h. (one.0 e, rest.0 h), λ h. rest.1 h.1)
      | inr (error, e) ↦
          rw (e, validate_sessions_support_rollback, validate_session_supports_rollback)
            (λ h. cc, λ h. let e' = one.1 h.0 in cc)
    ]
