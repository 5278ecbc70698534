-- ===== src/Cli/Foreground/Watch.antt =====
-- When the loop of a foreground session ends, and that its end is defined.
use kubeforward.Base.{
  ℕ, zero, suc, ◌<◌, ◌≡◌, ◌⊎◌, inl, inr, refl, Bool, true, false, not, ◌||◌, ◌&&◌, Option, none,
  some, List, [], ◌∷◌, String, empty, length, eqb, ltb, arith, Bool-cases, Option-cases,
}
use kubeforward.Base.Int.{ℤ}
use kubeforward.Session.{ManagedForwardProcess, ManagedSession, RuntimeState}
use kubeforward.Cli.Ready.{WaitStatus}
use kubeforward.Cli.Down.{
  System, Stopping, should_signal_managed_process, stop_process, stop_processes,
  stop_session_processes, stop_started_session,
}
use kubeforward.Cli.Foreground.{
  ForegroundSignal, is_signal, exit_code_from_signal, succeeded, all_succeeded, ForegroundExitEvent,
  exits, exit_code_of_first, foreground_end, Watching, poll_forwards, sleep_poll_interval, watch,
  nothing_exited, finish_foreground, run_foreground_session,
}

empty_eq : (events : List ForegroundExitEvent) → empty events ≡ true → events ≡ []
empty_eq [] h = refl
empty_eq (event ∷ events) h = absurd (cc (h))

first_defined :
    (total : ℕ) (event : ForegroundExitEvent) (events : List ForegroundExitEvent)
    → (code : ℕ) × (exit_code_of_first total (event ∷ events) ≡ exits code)
unfolding exit_code_of_first
first_defined total event events = elim (Bool-cases (ltb (length (event ∷ events)) total)) [
  | inl l ↦ (2, rw l)
  | inr l ↦ elim (Bool-cases (succeeded event.status)) [
    | inl s ↦ (0, rw (l, s))
    | inr s ↦ (2, rw (l, s))
  ]
]

-- With a signal, or an exit, the end is defined.
foreground_end_defined :
    (save_error : Option String) (noted : ForegroundSignal) (total : ℕ)
    (events : List ForegroundExitEvent)
    → ((is_signal noted ≡ true) ⊎ (empty events ≡ false))
    → (code : ℕ) × (foreground_end save_error noted total events ≡ exits code)
unfolding foreground_end
foreground_end_defined (some e) noted total events h = (2, refl)
foreground_end_defined none noted total events (inl s) = (exit_code_from_signal noted, rw s)
foreground_end_defined none noted total [] (inr e) = absurd (cc (e))
foreground_end_defined none noted total (event ∷ events) (inr e) =
    elim (Bool-cases (is_signal noted)) [
      | inl s ↦ (exit_code_from_signal noted, rw s)
      | inr s ↦
          elim (Bool-cases
            (eqb (length (event ∷ events)) total && all_succeeded (event ∷ events))) [
              | inl a ↦ (0, rw (s, a))
              | inr a ↦ rw (s, a) (first_defined total event events)
            ]
    ]

module _ (S : System) (signal : S.State → ForegroundSignal)
    (waitpid : ℤ → S.State → Option WaitStatus × S.State) (sleep_for : ℕ → S.State → S.State) where
  abbrev Watch : Type 0
  Watch = Watching S signal waitpid sleep_for

  module _ (forwards : List ManagedForwardProcess) where
    abbrev polled : Watch → Watch
    polled = poll_forwards S signal waitpid sleep_for forwards

    -- The rounds of the loop, one poll and one sleep each.
    abbrev pub rounds : ℕ → Watch → Watch
    rounds zero w = w
    rounds (suc n) w = rounds n (sleep_poll_interval S signal waitpid sleep_for (polled w))

    -- A signal is noted, or the next poll finds an exit.
    abbrev pub is_noisy : Watch → Bool
    is_noisy w = is_signal (signal w.system) || not (empty (polled w).exited_forwards)

    watch_ends :
        (n fuel : ℕ) (w : Watch)
        → n < fuel
        → is_noisy (rounds n w) ≡ true
        → (w' : Watch) × (watch S signal waitpid sleep_for fuel forwards w ≡ some w')
          × ((is_signal (signal w'.system) ≡ true) ⊎ (empty w'.exited_forwards ≡ false))
    unfolding watch
    watch_ends n zero w enough noise = absurd (omega (arith, enough))
    watch_ends zero (suc fuel) w enough noise = elim (Bool-cases (is_signal (signal w.system))) [
      | inl s ↦ (w, rw (s, watch), inl s)
      | inr s ↦ elim (Bool-cases (empty (polled w).exited_forwards)) [
        | inr e ↦ (polled w, rw (s, e, watch), inr e)
        | inl e ↦ absurd (ground arith)
      ]
    ]
    watch_ends (suc n) (suc fuel) w enough noise = elim (Bool-cases (is_signal (signal w.system))) [
      | inl s ↦ (w, rw (s, watch), inl s)
      | inr s ↦ elim (Bool-cases (empty (polled w).exited_forwards)) [
        | inr e ↦ (polled w, rw (s, e, watch), inr e)
        | inl e ↦
            let slept = sleep_poll_interval S signal waitpid sleep_for (polled w) in
            let (w', ends, why) = watch_ends n fuel slept (omega arith) noise in
            (w', rw (s, e, watch) ends, why)
      ]
    ]

  module _
      (stays : (pid : ℤ) (st : S.State)
        → is_signal (signal st) ≡ true
        → is_signal (signal (S.stop pid st).1) ≡ true) where
    stop_process-stays :
        (process : ManagedForwardProcess) (s : Stopping S)
        → is_signal (signal s.system) ≡ true
        → is_signal (signal (stop_process S process s).1.system) ≡ true
    unfolding stop_process
    stop_process-stays process s h =
        elim (Option-cases (should_signal_managed_process S s.system process)) [
          | inr (reason, r) ↦ rw (r, stop_process) h
          | inl r ↦ elim (Option-cases (S.stop process.pid s.system).0) [
            | inr (error, o) ↦ rw (r, o, stop_process) (stays process.pid s.system h)
            | inl o ↦ rw (r, o, stop_process) (stays process.pid s.system h)
          ]
        ]

    stop_processes-stays :
        (processes : List ManagedForwardProcess) (session_failed : Bool) (s : Stopping S)
        → is_signal (signal s.system) ≡ true
        → is_signal (signal (stop_processes S processes session_failed s).1.system) ≡ true
    unfolding stop_processes
    stop_processes-stays [] session_failed s h = h
    stop_processes-stays (process ∷ processes) session_failed s h =
        stop_processes-stays processes (session_failed || (stop_process S process s).0)
          (stop_process S process s).1 (stop_process-stays process s h)

    finish_foreground-exits :
        (save : RuntimeState → Option String) (snapshot : RuntimeState) (session : ManagedSession)
        (w : Watch)
        → ((is_signal (signal w.system) ≡ true) ⊎ (empty w.exited_forwards ≡ false))
        → (code : ℕ) × ((finish_foreground S signal waitpid sleep_for save snapshot session w).0
            ≡ exits code)
    unfolding finish_foreground stop_started_session stop_session_processes
    finish_foreground-exits save snapshot session w (inr e) =
        foreground_end_defined _ _ (length session.forwards) w.exited_forwards (inr e)
    finish_foreground-exits save snapshot session w (inl s) =
        foreground_end_defined _ _ (length session.forwards) w.exited_forwards
          (inl (stop_processes-stays session.forwards false _ s))

    -- If stopping a process does not take a signal back: when a signal is noted or a forward has
    -- exited at some round of the loop, and the fuel covers that round, the foreground session ends
    -- with an exit code, and does not read the first of no exits.
    pub run_foreground_session-exits :
        (save : RuntimeState → Option String) (snapshot : RuntimeState) (session : ManagedSession)
        (st : S.State) (n fuel : ℕ)
        → n < fuel
        → is_noisy session.forwards
            (rounds session.forwards n (nothing_exited S signal waitpid sleep_for st))
          ≡ true
        → (code : ℕ) × ((run_foreground_session S signal waitpid sleep_for fuel save snapshot
              session st).0
            ≡ exits code)
    unfolding run_foreground_session
    run_foreground_session-exits save snapshot session st n fuel enough noise =
        let (w, ends, why) =
          watch_ends session.forwards n fuel (nothing_exited S signal waitpid sleep_for st) enough
            noise in
        rw (ends, run_foreground_session) (finish_foreground-exits save snapshot session w why)
