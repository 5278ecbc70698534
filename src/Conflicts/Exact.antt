-- ===== src/Conflicts/Exact.antt =====
-- The preflight check against what a conflict is.
use kubeforward.Base.{
  ◌≡◌, refl, ◌⊎◌, inl, inr, String, true, false, ◌&&◌, Option, none, some, List, [], ◌∷◌, ◌==◌,
  contains, string_eq, Bool-cases,
}
use kubeforward.Base.Int.{ℤ}
use kubeforward.Plan.Types.{ResolvedEnvironment}
use kubeforward.Session.{ManagedForwardProcess, ManagedSession, RuntimeState}
use kubeforward.Conflicts.{
  Probe, PortClaimKey, claim_eq, process_claim, target_ports, conflict_message, is_pid_alive,
  check_processes, check_sessions, check_runtime_session_port_conflicts,
}

-- `Here P xs`: an item of the list, at some place in it, that satisfies `P`.
pub data Here {A : Type 0} (P : A → Type 0) : List A → Type 0 where
  first : {x : A} {xs : List A} → P x → Here P (x ∷ xs)
  later : {x : A} {xs : List A} → Here P xs → Here P (x ∷ xs)

not_Here : {A : Type 0} {P : A → Type 0} {xs : List A} → ((x : A) → ¬ P x) → ¬ Here P xs
not_Here f (first p) = f _ p
not_Here f (later h) = not_Here f h

not_Here-nil : {A : Type 0} (P : A → Type 0) → ¬ Here P []
not_Here-nil P h = elim h [ ]

not_Here-cons :
    {A : Type 0} {P : A → Type 0} {x : A} {xs : List A} → ¬ P x → ¬ Here P xs → ¬ Here P (x ∷ xs)
not_Here-cons f g (first p) = f p
not_Here-cons f g (later h) = g h

module _ (kill : ℤ → Probe) where
  -- A live process that holds one of the ports.
  pub record Holds (ports : List PortClaimKey) (process : ManagedForwardProcess) : Type 0 where
    pub claimed : contains ports (process_claim process) ≡ true
    pub alive : is_pid_alive kill process.pid ≡ true

  module _ (ports : List PortClaimKey) (session : ManagedSession) where
    -- The error names a live process of the list that holds a port.
    abbrev Names : Option String → List ManagedForwardProcess → Type 0
    Names result = Here λ p. Holds ports p × (result ≡ some (conflict_message session p))

    check_processes-exact :
        (processes : List ManagedForwardProcess)
        → ((check_processes kill ports session processes ≡ none) × ¬ Here (Holds ports) processes)
          ⊎ Names (check_processes kill ports session processes) processes
    unfolding check_processes
    check_processes-exact [] = inl (refl, not_Here-nil _)
    check_processes-exact (process ∷ processes) =
        elim (Bool-cases (contains ports (process_claim process))) [
          | inr c ↦ rw c (skip (λ h. cc (h.claimed, c)) (check_processes-exact processes))
          | inl c ↦ elim (Bool-cases (is_pid_alive kill process.pid)) [
            | inr a ↦ rw (c, a) (skip (λ h. cc (h.alive, a)) (check_processes-exact processes))
            | inl a ↦ rw (c, a) (inr (first (record { claimed = c; alive = a }, refl)))
          ]
        ]
      where
        skip :
            {result : Option String}
            → ¬ Holds ports process
            → ((result ≡ none) × ¬ Here (Holds ports) processes) ⊎ Names result processes
            → ((result ≡ none) × ¬ Here (Holds ports) (process ∷ processes))
              ⊎ Names result (process ∷ processes)
        skip free (inl (e, f)) = inl (e, not_Here-cons free f)
        skip free (inr h) = inr (later h)

  -- A session of another config or environment with a live process that holds one of the ports.
  pub record Conflicts (config_path env_name : String) (ports : List PortClaimKey)
      (session : ManagedSession) : Type 0 where
    pub foreign : (session.config_path == config_path && session.environment == env_name) ≡ false
    pub process : Here (Holds ports) session.forwards

  -- The same, and the error names such a process of the session.
  pub record Reports (config_path env_name : String) (ports : List PortClaimKey)
      (result : Option String) (session : ManagedSession) : Type 0 where
    pub foreign : (session.config_path == config_path && session.environment == env_name) ≡ false
    pub process :
        Here (λ p. Holds ports p × (result ≡ some (conflict_message session p))) session.forwards

  -- The check passes when no session conflicts, and otherwise its error names a conflict.
  abbrev pub Verdict :
      String → String → List PortClaimKey → List ManagedSession → Option String → Type 0
  Verdict config_path env_name ports sessions result =
      ((result ≡ none) × ¬ Here (Conflicts config_path env_name ports) sessions)
      ⊎ Here (Reports config_path env_name ports result) sessions

  module _ (config_path env_name : String) (ports : List PortClaimKey) where
    check_sessions-exact :
        (sessions : List ManagedSession)
        → Verdict config_path env_name ports sessions
            (check_sessions kill config_path env_name ports sessions)
    unfolding check_sessions
    check_sessions-exact [] = inl (refl, not_Here-nil _)
    check_sessions-exact (session ∷ sessions) =
        elim (Bool-cases (session.config_path == config_path && session.environment == env_name)) [
          | inl own ↦ rw own (skip (λ h. cc (h.foreign, own)) (check_sessions-exact sessions))
          | inr foreign ↦ elim (check_processes-exact ports session session.forwards) [
            | inl (e, f) ↦ rw (foreign, e) (skip (λ h. f h.process) (check_sessions-exact sessions))
            | inr h ↦ rw foreign (found foreign _ h)
          ]
        ]
      where
        skip :
            {result : Option String}
            → ¬ Conflicts config_path env_name ports session
            → Verdict config_path env_name ports sessions result
            → Verdict config_path env_name ports (session ∷ sessions) result
        skip free (inl (e, f)) = inl (e, not_Here-cons free f)
        skip free (inr h) = inr (later h)

        found :
            (session.config_path == config_path && session.environment == env_name) ≡ false
            → (result : Option String) → Names ports session result session.forwards
            → Verdict config_path env_name ports (session ∷ sessions) (elim result [
              | some error ↦ some error
              | none ↦ check_sessions kill config_path env_name ports sessions
            ])
        found foreign none h = absurd (not_Here (λ p k. cc (k.1)) h)
        found foreign (some error) h = inr (first (record { foreign = foreign; process = h }))

  -- Preflight passes if no session of another config or environment has a live process on a local
  -- port (address, port and protocol) that the environment claims, and only then. Otherwise the
  -- error is the message for such a process.
  pub check_runtime_session_port_conflicts-Verdict :
      (state : RuntimeState) (config_path : String) (env : ResolvedEnvironment)
      → Verdict config_path env.name
          (target_ports env.forwards)
          state.sessions
          (check_runtime_session_port_conflicts kill state config_path env)
  unfolding check_runtime_session_port_conflicts
  check_runtime_session_port_conflicts-Verdict state config_path env =
      check_sessions-exact config_path env.name (target_ports env.forwards) state.sessions
