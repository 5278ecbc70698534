-- ===== src/Cli/Ready/Bounds.antt =====
-- The wait for a forward is bounded.
use kubeforward.Base.{
  ℕ, zero, suc, ◌+◌, ◌*◌, ◌≤◌, ◌<◌, ◌≡◌, refl, ◌⊎◌, inl, inr, false, Option, none, some, String,
  leb, arith, Bool-cases, subst,
}
use kubeforward.Base.Int.{ℤ}
use kubeforward.Cli.Ready.{
  startup_timeout_ms, Probing, check_ready, wait_ready_from, wait_for_forward_ready, timed_out,
}
use kubeforward.Cli.Ready.Checks.{
  IsUnready, IsRunning, IsListening, HasExited, polled, check_ready-Says,
}
use kubeforward.Session.{ManagedForwardProcess}

-- The timeout is from a tenth of a second to ten minutes, whatever the environment variable holds.
pub startup_timeout_ms_bounds :
    (value : Option String) (strtol : String → Option ℤ)
    → (100 ≤ startup_timeout_ms value strtol) × (startup_timeout_ms value strtol ≤ 600000)
unfolding startup_timeout_ms
startup_timeout_ms_bounds value strtol = (ground arith, ground arith)

module _ (S : Probing) (timeout_ms : ℕ) (process : ManagedForwardProcess) where
  -- After a check that said to wait on.
  abbrev later : S.State → S.State
  later st = S.sleep_for 100 (check_ready S timeout_ms process st).1

  abbrev pub after_checks : ℕ → S.State → S.State
  after_checks zero st = st
  after_checks (suc n) st = after_checks n (later st)

  -- In each of the checks the process ran and its port was not open.
  abbrev pub AllUnready : ℕ → S.State → Type 0
  AllUnready zero st = Unit
  AllUnready (suc n) st = IsUnready S timeout_ms process st × AllUnready n (later st)

  -- After `waited` milliseconds: the process runs and its port is open; or it has exited; or the time
  -- is over.
  abbrev pub Outcome : ℕ → S.State → Option (Option String) × S.State → Type 0
  Outcome waited st result =
      ((waited ≤ timeout_ms)
        × (result.0 ≡ some none)
        × IsRunning S timeout_ms process st
        × IsListening S timeout_ms process (polled S timeout_ms process st) result.1)
      ⊎ ((waited ≤ timeout_ms)
          × (error : String) × (result.0 ≡ some (some error))
          × HasExited S timeout_ms process st error result.1)
      ⊎ ((timeout_ms < waited) × (result ≡ (some (some (timed_out S timeout_ms process)), st)))

  -- Some checks say to wait on, and then the wait ends.
  abbrev pub Answers : ℕ → S.State → Option (Option String) × S.State → Type 0
  Answers waited_ms st result =
      (checks : ℕ) × AllUnready checks st
      × Outcome (waited_ms + checks * 100) (after_checks checks st) result

  wait_ready_from-Answers :
      (n fuel waited_ms : ℕ) (st : S.State)
      → n < fuel
      → timeout_ms < waited_ms + n * 100
      → Answers waited_ms st (wait_ready_from S timeout_ms process fuel waited_ms st)
  unfolding wait_ready_from
  wait_ready_from-Answers n zero waited_ms st enough late = absurd (omega (arith, enough))
  wait_ready_from-Answers zero (suc fuel) waited_ms st enough late =
      let over : leb waited_ms timeout_ms ≡ false = ground arith in
      rw (over, wait_ready_from) (zero, tt, inr (inr (omega arith, refl)))
  wait_ready_from-Answers (suc n) (suc fuel) waited_ms st enough late =
      elim (Bool-cases (leb waited_ms timeout_ms)) [
        | inr over ↦ rw (over, wait_ready_from) (zero, tt, inr (inr (ground arith, refl)))
        | inl within ↦ elim (check_ready-Says S timeout_ms process st) [
          | inl (c, unready) ↦
              let (checks, all, outcome) =
                wait_ready_from-Answers n fuel (waited_ms + 100) (later st) (omega arith)
                  (omega arith) in
              let same : waited_ms + 100 + checks * 100 ≡ waited_ms + suc checks * 100 =
                omega arith in
              rw (within, c, wait_ready_from)
                (
                  suc checks,
                  (unready, all),
                  subst
                      (λ w.
                        Outcome w (after_checks checks (later st))
                          (wait_ready_from S timeout_ms process fuel (waited_ms + 100) (later st)))
                      same outcome,
                )
          | inr (inl (c, running, listening)) ↦
              rw (within, c, wait_ready_from)
                (zero, tt, inl (ground arith, refl, running, listening))
          | inr (inr (error, c, exited)) ↦
              rw (within, c, wait_ready_from)
                (zero, tt, inr (inl (ground arith, error, refl, exited)))
        ]
      ]

-- With fuel for a check each tenth of a second of the longest timeout, waiting for a forward ends,
-- whatever the environment and the system answer. It makes checks, a tenth of a second apart, in
-- which `waitpid` does not give the process back and neither `lsof` nor `ss` lists its port; then,
-- while these waits are within the timeout, either one of the two lists the port of the running process and there is no
-- error, or `waitpid` gives the process back and the error names its status; or else the timeout is
-- over, and the error says so.
pub wait_for_forward_ready-Answers :
    (S : Probing) (value : Option String) (strtol : String → Option ℤ)
    (process : ManagedForwardProcess) (fuel : ℕ) (st : S.State)
    → 6001 < fuel
    → Answers S
        (startup_timeout_ms value strtol)
        process
        0
        st
        (wait_for_forward_ready S (startup_timeout_ms value strtol) process fuel st)
unfolding wait_for_forward_ready
wait_for_forward_ready-Answers S value strtol process fuel st enough =
    let bound = (startup_timeout_ms_bounds value strtol).1 in
    wait_ready_from-Answers S (startup_timeout_ms value strtol) process 6001 fuel 0 st enough
      (omega arith)
