-- ===== src/Cli/Start/Laws.antt =====
-- A session's processes are all started, or those that were started are stopped.
use kubeforward.Base.{
  String, ◌≡◌, refl, sym, ap, ◌∙◌, ◌⊎◌, inl, inr, Bool, Option, none, some, List, [], ◌∷◌, ◌++◌,
  subst, Option-cases, append-nil, append_assoc,
}
use kubeforward.Base.Int.{ℤ}
use kubeforward.Session.{ManagedForwardProcess, ManagedSession}
use kubeforward.Cli.Requests.{Result, done, failed, StartProcessRequest}
use kubeforward.Cli.Down.{System, stop_started_session}
use kubeforward.Cli.Start.{Pending, ready_error, start_all}

pub Result-cases :
    {A : Type 0} (r : Result A) → ((e : String) × (r ≡ failed e)) ⊎ ((a : A) × (r ≡ done a))
Result-cases (failed e) = inl (e, refl)
Result-cases (done a) = inr (a, refl)

module _ (S : System) (start : StartProcessRequest → S.State → Result ℤ × S.State) (skip : Bool)
    (wait : ManagedForwardProcess → S.State → Option String × S.State) where
  abbrev with_processes : ManagedSession → List ManagedForwardProcess → ManagedSession
  with_processes session processes = record session { forwards = session.forwards ++ processes }

  -- The forwards were started one after the other, each was ready, and this led to the processes and
  -- from the first state to the last.
  abbrev pub Started : List Pending → S.State → List ManagedForwardProcess → S.State → Type 0
  Started [] st processes st' = (processes ≡ []) × (st ≡ st')
  Started (p ∷ ps) st processes st' =
      (pid : ℤ) × (rest : List ManagedForwardProcess) × ((start p.launch.request st).0 ≡ done pid)
      × ((ready_error S start skip wait (p.process pid) (start p.launch.request st).1).0 ≡ none)
      × (processes ≡ p.process pid ∷ rest)
      × Started ps (ready_error S start skip wait (p.process pid) (start p.launch.request st).1).1
          rest st'

  -- A forward could not be started, or was not ready; in the second case its process is one to stop.
  abbrev pub Fails : Pending → S.State → List ManagedForwardProcess → S.State → Type 0
  Fails p st processes st' =
      ((e : String) × (start p.launch.request st ≡ (failed e, st')) × (processes ≡ []))
      ⊎ ((pid : ℤ) × (e : String) × ((start p.launch.request st).0 ≡ done pid)
          × (ready_error S start skip wait (p.process pid) (start p.launch.request st).1
              ≡ (some e, st'))
          × (processes ≡ p.process pid ∷ []))

  abbrev pub Outcome :
      List Pending → ManagedSession → S.State → Result ManagedSession × S.State → Type 0
  Outcome pending session st (outcome, after) =
      ((processes : List ManagedForwardProcess) × Started pending st processes after
        × (outcome ≡ done (with_processes session processes)))
      ⊎ ((before : List Pending) × (p : Pending) × (rest : List Pending) × (pending
            ≡ before ++ p ∷ rest)
          × (processes : List ManagedForwardProcess) × (mid : S.State) × Started before st processes
              mid
          × (last : List ManagedForwardProcess) × (failure : S.State) × Fails p mid last failure
          × (e : String) × (outcome ≡ failed e)
          × (after
              ≡ (stop_started_session S (with_processes session (processes ++ last)) failure).1))

  -- A forward that was started, in front of the others.
  more :
      (p : Pending) (ps : List Pending) (session : ManagedSession) (st : S.State) (pid : ℤ)
      (result : Result ManagedSession × S.State)
      → (start p.launch.request st).0 ≡ done pid
      → (ready_error S start skip wait (p.process pid) (start p.launch.request st).1).0 ≡ none
      → Outcome ps
          (with_processes session (p.process pid ∷ []))
          (ready_error S start skip wait (p.process pid) (start p.launch.request st).1).1
          result
      → Outcome (p ∷ ps) session st result
  more p ps session st pid result s r (inl (processes, h, o)) = inl (
    p.process pid ∷ processes,
    (pid, processes, s, r, refl, h),
    o
        ∙ ap (λ f. done (record session { forwards = f }))
            (append_assoc session.forwards (p.process pid ∷ []) processes),
  )
  more p ps session st pid result s r
        (inr (before, q, rest, split, processes, mid, h, last, failure, f, e, o, a)) =
      inr (
        p ∷ before,
        q,
        rest,
        ap (◌∷◌ p) split,
        p.process pid ∷ processes,
        mid,
        (pid, processes, s, r, refl, h),
        last,
        failure,
        f,
        e,
        o,
        a
            ∙ ap (λ fs. (stop_started_session S (record session { forwards = fs }) failure).1)
                (append_assoc session.forwards (p.process pid ∷ []) (processes ++ last)),
      )

  -- Starting a session's forwards either starts all of them in order, each one ready before the next
  -- is started, and gives the session with their processes; or it gives an error, at the first
  -- forward that could not be started or was not ready, and then the processes of the session that
  -- were started until then, that forward's among them, are gone through to be stopped.
  pub start_all-Outcome :
      (verb : String) (pending : List Pending) (session : ManagedSession) (st : S.State)
      → Outcome pending session st (start_all S start skip wait verb pending session st)
  unfolding start_all
  start_all-Outcome verb [] session st = inl (
    [],
    (refl, refl),
    ap (λ f. done (record session { forwards = f })) (sym (append-nil session.forwards)),
  )
  start_all-Outcome verb (p ∷ ps) session st =
      let first = start p.launch.request st in
      elim (Result-cases first.0) [
        | inl (e, s) ↦
            rw (s, start_all)
              (inr (
                [],
                p,
                ps,
                refl,
                [],
                st,
                (refl, refl),
                [],
                first.1,
                inl (e, ap (λ o. (o, first.1)) s, refl),
                _,
                refl,
                ap (λ f. (stop_started_session S (record session { forwards = f }) first.1).1)
                    (sym (append-nil session.forwards)),
              ))
        | inr (pid, s) ↦
            let ready = ready_error S start skip wait (p.process pid) first.1 in
            elim (Option-cases ready.0) [
              | inr (e, r) ↦
                  rw (s, r, start_all)
                    (inr (
                      [],
                      p,
                      ps,
                      refl,
                      [],
                      st,
                      (refl, refl),
                      p.process pid ∷ [],
                      ready.1,
                      inr (pid, e, s, ap (λ o. (o, ready.1)) r, refl),
                      _,
                      refl,
                      refl,
                    ))
              | inl r ↦
                  let rest =
                    start_all-Outcome verb ps (with_processes session (p.process pid ∷ []))
                      ready.1 in
                  let goes_on : start_all S start skip wait verb (p ∷ ps) session st
                      ≡ start_all S start skip wait verb ps
                          (with_processes session (p.process pid ∷ [])) ready.1 =
                    rw (s, r, start_all) in
                  subst (λ x. Outcome (p ∷ ps) session st x) (sym goes_on)
                    (more p ps session st pid _ s r rest)
            ]
      ]
