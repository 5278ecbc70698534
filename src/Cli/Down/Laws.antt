-- ===== src/Cli/Down/Laws.antt =====
-- `down` reports success exactly when no session that it is about is left, and leaves others alone.
use kubeforward.Base.{
  ◌≡◌, refl, ◌↔◌, inl, inr, String, Bool, true, false, not, ◌&&◌, ◌||◌, Option, none, some, List,
  [], ◌∷◌, ◌==◌, string_eq, arith, is_empty, if◌then◌else◌, Bool-cases, filter, ◌∙◌, sym, ap,
}
use kubeforward.Session.{ManagedForwardProcess, ManagedSession, RuntimeState}
use kubeforward.Cli.Sessions.{matching_sessions_from, matching_sessions}
use kubeforward.Cli.Down.{
  exit_code, System, Stopping, stop_process, stop_processes, stop_session, erase_stopped, down,
}

module _ (S : System) where
  -- A step that fails or not, with what it does to `stop_failed`.
  record Fails (before : Stopping S) (failed : Bool) (after : Stopping S) : Type 0 where
    noted : after.stop_failed ≡ (before.stop_failed || failed)

  stop_process-Fails :
      (process : ManagedForwardProcess) (s : Stopping S)
      → Fails s (stop_process S process s).0 (stop_process S process s).1
  unfolding stop_process
  stop_process-Fails process s = record { noted = ground arith }

  or_assoc : (a b c : Bool) → ((a || b) || c) ≡ (a || (b || c))
  or_assoc a b c = ground arith

  or_false : (a b any : Bool) → any ≡ false → b ≡ (a || any) → b ≡ a
  or_false a b any n h = ground arith

  or_true : (a b any : Bool) → any ≡ true → b ≡ (a || any) → b ≡ true
  or_true a b any n h = ground arith

  stop_processes-Fails :
      (processes : List ManagedForwardProcess) (session_failed : Bool) (s : Stopping S)
      → (any : Bool) × ((stop_processes S processes session_failed s).0 ≡ (session_failed || any))
        × ((stop_processes S processes session_failed s).1.stop_failed ≡ (s.stop_failed || any))
  unfolding stop_processes
  stop_processes-Fails [] session_failed s = (false, ground arith, ground arith)
  stop_processes-Fails (process ∷ processes) session_failed s =
      let one = stop_process-Fails process s in
      let failed = (stop_process S process s).0 in
      let (any, a, b) =
        stop_processes-Fails processes (session_failed || failed) (stop_process S process s).1 in
      (
        failed || any,
        a ∙ or_assoc session_failed failed any,
        b ∙ ap (λ (x : Bool). x || any) one.noted ∙ or_assoc s.stop_failed failed any,
      )

  module _ (path env : String) where
    -- The session is of the config, and of the environment if one is named.
    abbrev pub matches : ManagedSession → Bool
    matches session =
        (session.config_path == path) && (is_empty env || (session.environment == env))

    abbrev pub other_sessions : List ManagedSession → List ManagedSession
    other_sessions = filter (λ s. not (matches s))

    matching_cons :
        (session : ManagedSession) (sessions : List ManagedSession)
        → matching_sessions_from (session ∷ sessions) path env ≡ (
            if matches session
            then session ∷ matching_sessions_from sessions path env
            else matching_sessions_from sessions path env)
    unfolding matching_sessions_from
    matching_cons session sessions = ground arith

    other_kept :
        (session : ManagedSession) (sessions : List ManagedSession)
        → matches session ≡ false
        → other_sessions (session ∷ sessions) ≡ session ∷ other_sessions sessions
    other_kept session sessions h = ground arith

    other_dropped :
        (session : ManagedSession) (sessions : List ManagedSession)
        → matches session ≡ true
        → other_sessions (session ∷ sessions) ≡ other_sessions sessions
    other_dropped session sessions h = ground arith

    stop_session_matched :
        (session : ManagedSession) (s : Stopping S)
        → matches session ≡ true
        → stop_session S path env session s ≡ (
          not (stop_processes S session.forwards false s).0,
          (stop_processes S session.forwards false s).1,
        )
    unfolding stop_session
    stop_session_matched session s h = ground arith

    stop_session_unmatched :
        (session : ManagedSession) (s : Stopping S)
        → matches session ≡ false
        → stop_session S path env session s ≡ (false, s)
    unfolding stop_session
    stop_session_unmatched session s h = ground arith

    -- What the erasing loop does to the sessions and to `stop_failed`.
    record Erases (sessions : List ManagedSession) (s : Stopping S)
        (result : List ManagedSession × Stopping S) : Type 0 where
      failed_iff :
          (result.1.stop_failed ≡ false)
          ↔ ((s.stop_failed ≡ false) × (matching_sessions_from result.0 path env ≡ []))
      others : other_sessions result.0 ≡ other_sessions sessions

    erase_stopped-Erases :
        (sessions : List ManagedSession) (s : Stopping S)
        → Erases sessions s (erase_stopped S path env sessions s)
    unfolding erase_stopped matching_sessions_from
    erase_stopped-Erases [] s = record { failed_iff = (λ h. (h, refl), λ h. h.0); others = refl }
    erase_stopped-Erases (session ∷ sessions) s = elim (Bool-cases (matches session)) [
      | inr m ↦
          let ih = erase_stopped-Erases sessions s in
          let c = matching_cons session (erase_stopped S path env sessions s).0 in
          rw (stop_session_unmatched session s m) (record {
            failed_iff = rw (c, m) ih.failed_iff;
            others =
                other_kept session _ m
                ∙ ap (◌∷◌ session) ih.others
                ∙ sym (other_kept session sessions m);
          })
      | inl m ↦
          let (any, a, b) = stop_processes-Fails session.forwards false s in
          let s' = (stop_processes S session.forwards false s).1 in
          let ih = erase_stopped-Erases sessions s' in
          let c = matching_cons session (erase_stopped S path env sessions s').0 in
          rw (stop_session_matched session s m) (elim (Bool-cases any) [
            | inr n ↦
                rw (a, n)
                  (record {
                    failed_iff =
                        (let same = or_false s.stop_failed _ any n b in
                          (
                            λ h. let (x, y) = ih.failed_iff.0 h in (sym same ∙ x, y),
                            λ h. ih.failed_iff.1 (same ∙ h.0, h.1),
                          ));
                    others = ih.others ∙ sym (other_dropped session sessions m);
                  })
            | inl n ↦
                rw (a, n)
                  (record {
                    failed_iff =
                        (let bad = or_true s.stop_failed _ any n b in
                          (
                            λ h. let (x, _) = ih.failed_iff.0 h in absurd (cc (bad, x)),
                            λ h. let none_left = rw (c, m) at h.1 in cc,
                          ));
                    others =
                        other_dropped session _ m
                        ∙ ih.others
                        ∙ sym (other_dropped session sessions m);
                  })
          ])
    ]

    exit_iff :
        (saved : Option String) (failed : Bool)
        → (exit_code saved failed ≡ 0) ↔ ((saved ≡ none) × (failed ≡ false))
    exit_iff none true = (λ h. absurd (omega (arith, h)), λ h. cc)
    exit_iff none false = (λ _. (refl, refl), λ _. refl)
    exit_iff (some error) failed = (λ h. absurd (omega (arith, h)), λ h. cc)

    -- `down` reports success exactly when the state was saved and holds no session of the config and
    -- the environment (of any environment, if none is named) any more. The other sessions are kept,
    -- in their order, whatever fails.
    pub down_iff :
        (save : RuntimeState → Option String) (state : RuntimeState) (system : S.State)
        → (((down S path env save state system).0 ≡ 0) ↔ (
            (save (down S path env save state system).1 ≡ none)
            × (matching_sessions (down S path env save state system).1 path env ≡ [])))
          × (other_sessions (down S path env save state system).1.sessions
              ≡ other_sessions state.sessions)
    unfolding down matching_sessions
    down_iff save state system =
        let e =
          erase_stopped-Erases state.sessions
            (record { stop_failed = false; stopped_processes = 0; system = system }) in
        let exit = exit_iff _ _ in
        (
          (
            λ h. let (x, y) = exit.0 h in (x, (e.failed_iff.0 y).1),
            λ h. exit.1 (h.0, e.failed_iff.1 (refl, h.1)),
          ),
          e.others,
        )
