-- ===== src/Runner/Stop.antt =====
-- What `PosixProcessRunner::Stop` does to a process group, and when it reports success.
use kubeforward.Base.{
  ℕ, zero, suc, ◌+◌, ◌*◌, ◌≤◌, ◌<◌, ◌≡◌, refl, ◌∙◌, Bool, true, false, not, ◌&&◌, Option, none,
  some, List, [], ◌∷◌, ◌==◌, ==_iff, leb, ltb, arith, Bool-cases, Option-cases, inl, inr, ◌⊎◌,
  String,
}
use kubeforward.Base.Int.{ℤ, pos, leb_ℤ, int_eq}
use kubeforward.Runner.{
  probe, sigterm, sigkill, Call, kill_group, waitpid, sleep_for, Errno, esrch, eperm, other_errno,
  Answers, is_eperm, is_process_group_alive, is_group_gone, wait_from, wait_for_process_group_exit,
  Stopped, success, error, stop_killed, send_sigkill, stop_terminated, posix_stop,
}

-- The milliseconds that the calls slept.
abbrev pub slept : List Call → ℕ
slept [] = 0
slept (sleep_for ms ∷ calls) = slept calls + ms
slept (_ ∷ calls) = slept calls

-- Each call is about the group, and a SIGKILL comes after at least three seconds of waiting.
abbrev pub is_patient : ℤ → List Call → Bool
is_patient pid [] = true
is_patient pid (sleep_for ms ∷ calls) = is_patient pid calls
is_patient pid (waitpid group ∷ calls) = (group == pid) && is_patient pid calls
is_patient pid (kill_group group sigkill ∷ calls) =
    (group == pid) && (leb 3000 (slept calls) && is_patient pid calls)
is_patient pid (kill_group group _ ∷ calls) = (group == pid) && is_patient pid calls

module _ (os : Answers) where
  abbrev pub is_esrch : Errno → Bool
  is_esrch esrch = true
  is_esrch _ = false

  -- The answer to the last call is one that the code takes for the end of the group: nothing in it is
  -- there to be signalled, or its leader was reaped.
  abbrev pub says_gone : List Call → Bool
  says_gone [] = false
  says_gone (sleep_for ms ∷ calls) = false
  says_gone (waitpid group ∷ calls) = os.reaped group calls
  says_gone (kill_group group signal ∷ calls) = elim (os.kill group signal calls) [
    | none ↦ false
    | some errno ↦ elim signal [
      | probe ↦ not (is_eperm errno)
      | sigterm ↦ is_esrch errno
      | sigkill ↦ false
    ]
  ]

  module _ (pid : ℤ) (positive : leb_ℤ pid (pos 0) ≡ false) where
    same_pid : (pid == pid) ≡ true
    same_pid = (==_iff pid pid).1 refl

    -- A check, or a wait of at most `ms` milliseconds, with the code's verdict on the group.
    record Waits (ms : ℕ) (before : List Call) (gone : Bool) (after : List Call) : Type 0 where
      patient : is_patient pid before ≡ true → is_patient pid after ≡ true
      bounded : slept after ≤ slept before + ms
      whole : gone ≡ false → slept after ≡ slept before + ms
      said : says_gone after ≡ gone

    is_group_gone-Waits :
        (calls : List Call)
        → Waits 0 calls (is_group_gone os pid calls).0 (is_group_gone os pid calls).1
    unfolding is_group_gone is_process_group_alive
    is_group_gone-Waits calls = elim (Bool-cases (os.reaped pid calls)) [
      | inl r ↦
          rw (r, is_group_gone)
            (record {
              patient = λ h. rw (same_pid, h);
              bounded = omega arith;
              whole = λ h. cc;
              said = r;
            })
      | inr r ↦ elim (Option-cases (os.kill pid probe (waitpid pid ∷ calls))) [
        | inl k ↦
            rw (r, positive, k, is_group_gone, is_process_group_alive)
              (record {
                patient = λ h. rw (same_pid, h);
                bounded = omega arith;
                whole = λ _. omega arith;
                said = rw k;
              })
        | inr (errno, k) ↦
            rw (r, positive, k, is_group_gone, is_process_group_alive)
              (record {
                patient = λ h. rw (same_pid, h);
                bounded = omega arith;
                whole = λ _. omega arith;
                said = rw k;
              })
      ]
    ]

    record Returns (ms : ℕ) (before : List Call) (result : Option Bool × List Call) : Type 0 where
      gone : Bool
      returned : result.0 ≡ some gone
      waits : Waits ms before gone result.1

    wait_from-Returns :
        (n fuel waited timeout : ℕ) (calls : List Call)
        → timeout ≡ waited + n * 100
        → n < fuel
        → Returns (n * 100) calls (wait_from os fuel waited pid timeout calls)
    unfolding wait_from
    wait_from-Returns n zero waited timeout calls t enough = absurd (omega (arith, enough))
    wait_from-Returns zero (suc fuel) waited timeout calls t enough =
        let late : ltb waited timeout ≡ false = ground arith in
        rw (late, wait_from)
          (record {
            gone = (is_group_gone os pid calls).0;
            returned = refl;
            waits = is_group_gone-Waits calls;
          })
    wait_from-Returns (suc n) (suc fuel) waited timeout calls t enough =
        let early : ltb waited timeout ≡ true = ground arith in
        let one = is_group_gone-Waits calls in
        let calls' = (is_group_gone os pid calls).1 in
        elim (Bool-cases (is_group_gone os pid calls).0) [
          | inl g ↦
              rw (early, g, wait_from)
                (record {
                  gone = true;
                  returned = refl;
                  waits = record {
                    patient = one.patient;
                    bounded = let b = one.bounded in omega arith;
                    whole = λ h. cc;
                    said = one.said ∙ g;
                  };
                })
          | inr g ↦
              let rest =
                wait_from-Returns n fuel (waited + 100) timeout (sleep_for 100 ∷ calls')
                  (omega arith) (omega arith) in
              rw (early, g, wait_from)
                (record {
                  gone = rest.gone;
                  returned = rest.returned;
                  waits = record {
                    patient = λ h. rest.waits.patient (one.patient h);
                    bounded = let b = one.bounded in let c = rest.waits.bounded in omega arith;
                    whole = λ h. let b = one.whole g in let c = rest.waits.whole h in omega arith;
                    said = rest.waits.said;
                  };
                })
        ]

    wait-Returns :
        (n fuel timeout : ℕ) (calls : List Call)
        → timeout ≡ n * 100
        → n < fuel
        → Returns (n * 100) calls (wait_for_process_group_exit os fuel pid timeout calls)
    unfolding wait_for_process_group_exit
    wait-Returns n fuel timeout calls t enough =
        rw (positive, wait_for_process_group_exit)
          (wait_from-Returns n fuel 0 timeout calls (omega arith) enough)

  -- Success goes with a last answer that the code takes for the end of the group, and an error with
  -- one that it does not; the calls were patient and slept at most `ms` milliseconds.
  abbrev pub Ends : ℤ → ℕ → Stopped × List Call → Type 0
  Ends pid ms (outcome, calls) =
      ((outcome ≡ success) × (says_gone calls ≡ true)
        ⊎ ((message : String) × (outcome ≡ error message) × (says_gone calls ≡ false)))
      × (is_patient pid calls ≡ true)
      × (slept calls ≤ ms)

  module _ (pid : ℤ) (positive : leb_ℤ pid (pos 0) ≡ false) (fuel : ℕ) (enough : 30 < fuel) where
    stop_killed-Ends :
        (calls : List Call)
        → is_patient pid calls ≡ true
        → slept calls ≤ 3000
        → Ends pid 4000 (stop_killed os fuel pid calls)
    unfolding stop_killed
    stop_killed-Ends calls h s =
        let r =
          wait-Returns pid positive 10 fuel 1000 calls (omega arith) (omega (arith, enough)) in
        let b = r.waits.bounded in
        elim (Bool-cases r.gone) [
          | inl g ↦
              rw (r.returned, g, stop_killed)
                (inl (refl, r.waits.said ∙ g), r.waits.patient h, omega arith)
          | inr g ↦
              rw (r.returned, g, stop_killed)
                (inr (_, refl, r.waits.said ∙ g), r.waits.patient h, omega arith)
        ]

    send_sigkill-Ends :
        (calls : List Call)
        → is_patient pid calls ≡ true
        → slept calls ≡ 3000
        → Ends pid 4000 (send_sigkill os fuel pid calls)
    unfolding send_sigkill
    send_sigkill-Ends calls h s =
        let patient : is_patient pid (kill_group pid sigkill ∷ calls) ≡ true =
          rw (same_pid pid positive, s, h) in
        let killed = stop_killed-Ends (kill_group pid sigkill ∷ calls) patient (omega arith) in
        elim (Option-cases (os.kill pid sigkill calls)) [
          | inl k ↦ rw (k, send_sigkill) killed
          | inr (esrch, k) ↦ rw (k, send_sigkill) killed
          | inr (eperm, k) ↦
              rw (k, send_sigkill) (inr (_, refl, rw (k, says_gone)), patient, omega arith)
          | inr (other_errno text, k) ↦
              rw (k, send_sigkill) (inr (_, refl, rw (k, says_gone)), patient, omega arith)
        ]

    stop_terminated-Ends :
        (calls : List Call)
        → is_patient pid calls ≡ true
        → slept calls ≡ 0
        → Ends pid 4000 (stop_terminated os fuel pid calls)
    unfolding stop_terminated
    stop_terminated-Ends calls h s =
        let r = wait-Returns pid positive 30 fuel 3000 calls (omega arith) enough in
        let b = r.waits.bounded in
        elim (Bool-cases r.gone) [
          | inl g ↦
              rw (r.returned, g, stop_terminated)
                (inl (refl, r.waits.said ∙ g), r.waits.patient h, omega arith)
          | inr g ↦
              let w = r.waits.whole g in
              rw (r.returned, g, stop_terminated)
                (send_sigkill-Ends _ (r.waits.patient h) (omega arith))
        ]

  -- With fuel for thirty checks of the group, and whatever the system answers, `Stop` returns. It
  -- succeeds exactly when the answer to its last call is that nothing in the group is there to be
  -- signalled or that its leader was reaped, and otherwise gives an error. All its calls are about the group of the pid, it sends SIGKILL only after at
  -- least three seconds of waiting, and it waits at most four seconds.
  pub posix_stop-Ends : (fuel : ℕ) (pid : ℤ) → 30 < fuel → Ends pid 4000 (posix_stop os fuel pid [])
  unfolding posix_stop
  posix_stop-Ends fuel pid enough = elim (Bool-cases (leb_ℤ pid (pos 0))) [
    | inl p ↦ rw (p, posix_stop) (inr (_, refl, refl), refl, omega arith)
    | inr p ↦
        let patient : is_patient pid (kill_group pid sigterm ∷ []) ≡ true = rw (same_pid pid p) in
        elim (Option-cases (os.kill pid sigterm [])) [
          | inl k ↦
              rw (p, k, posix_stop)
                (stop_terminated-Ends pid p fuel enough (kill_group pid sigterm ∷ []) patient refl)
          | inr (esrch, k) ↦
              rw (p, k, posix_stop) (inl (refl, rw (k, says_gone)), patient, omega arith)
          | inr (eperm, k) ↦
              rw (p, k, posix_stop) (inr (_, refl, rw (k, says_gone)), patient, omega arith)
          | inr (other_errno text, k) ↦
              rw (p, k, posix_stop) (inr (_, refl, rw (k, says_gone)), patient, omega arith)
        ]
  ]
