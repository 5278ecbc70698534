-- ===== src/Cli/Ready/Checks.antt =====
-- What one check of `WaitForForwardReady` says of a process and its port.
use kubeforward.Base.{
  if◌then◌else◌, ℕ, ◌≡◌, refl, ◌⊎◌, inl, inr, false, Option, none, some, String, Bool-cases,
  Option-cases, ap, true, ◌<>◌, is_empty, Bool, sym, ◌∙◌, subst,
}
use kubeforward.Base.Int.{pos, leb_ℤ, to_string_ℤ}
use kubeforward.Cli.Ready.{
  Probing, WaitStatus, check_ready, resolve_executable_path, shell_quote, probe_with,
  command_produces_output, probe_tcp_port_listening_for_readiness, poll_process_exit_status,
  exited_early,
}
use kubeforward.Session.{ManagedForwardProcess}

module _ (S : Probing) (timeout_ms : ℕ) (process : ManagedForwardProcess) where
  -- A command that lists who listens on the port of the process.
  abbrev pub lsof_command : String → String
  lsof_command tool =
      shell_quote tool
      <> " -nP -iTCP@"
      <> shell_quote process.bind_address
      <> ":"
      <> to_string_ℤ process.local_port
      <> " -sTCP:LISTEN -t 2>/dev/null"

  abbrev pub ss_command : String → String
  ss_command tool =
      shell_quote tool <> " -H -ltn sport = :" <> to_string_ℤ process.local_port <> " 2>/dev/null"

  -- The state after the process was polled; a pid that is none is not asked about.
  abbrev pub polled : S.State → S.State
  polled st = if leb_ℤ process.pid (pos 0) then st else (S.waitpid process.pid st).1

  -- `waitpid` does not say that the process has exited.
  abbrev pub IsRunning : S.State → Type 0
  IsRunning st = (leb_ℤ process.pid (pos 0) ≡ true) ⊎ ((S.waitpid process.pid st).0 ≡ none)

  abbrev pub after_lsof : S.State → S.State
  after_lsof st = elim (resolve_executable_path S "lsof") [
    | none ↦ st
    | some tool ↦ (S.popen (lsof_command tool) st).1
  ]

  -- The command runs well and has an output.
  abbrev pub Prints : String → S.State → S.State → Type 0
  Prints command st after =
      (output : String) × (is_empty output ≡ false) × (S.popen command st ≡ (some output, after))

  -- One of the two commands that are there lists a listener on the port.
  abbrev pub IsListening : S.State → S.State → Type 0
  IsListening st after =
      ((tool : String) × (resolve_executable_path S "lsof" ≡ some tool)
        × Prints (lsof_command tool) st after)
      ⊎ ((tool : String) × (resolve_executable_path S "ss" ≡ some tool)
          × Prints (ss_command tool) (after_lsof st) after)

  -- `waitpid` gives the process back with a status, which the error names.
  abbrev pub HasExited : S.State → String → S.State → Type 0
  HasExited st error after =
      (status : WaitStatus) × (leb_ℤ process.pid (pos 0) ≡ false)
      × (S.waitpid process.pid st ≡ (some status, after))
      × (error ≡ exited_early S timeout_ms process status)

  probe_with-Prints :
      (tool : Option String) (command : String → String) (st : S.State)
      → (probe_with S tool command st).0 ≡ true
      → (t : String) × (tool ≡ some t)
        × Prints (command (shell_quote t)) st (probe_with S tool command st).1
  unfolding command_produces_output
  probe_with-Prints none command st h = cc
  probe_with-Prints (some t) command st h =
      elim (Option-cases (S.popen (command (shell_quote t)) st).0) [
        | inl e ↦ let h' = rw e at h in absurd cc
        | inr (output, e) ↦ elim (Bool-cases (is_empty output)) [
          | inl y ↦ let h' = rw (e, y) at h in absurd cc
          | inr n ↦
              (t, refl, (output, n, ap (λ o. (o, (S.popen (command (shell_quote t)) st).1)) e))
        ]
      ]

  probe_with-state :
      (tool : Option String) (command : String → String) (st : S.State)
      → (probe_with S tool command st).1
        ≡ elim tool [ none ↦ st | some t ↦ (S.popen (command (shell_quote t)) st).1 ]
  unfolding command_produces_output
  probe_with-state none command st = refl
  probe_with-state (some t) command st = refl

  abbrev lsof_of : String → String
  lsof_of tool =
      tool
      <> " -nP -iTCP@"
      <> shell_quote process.bind_address
      <> ":"
      <> to_string_ℤ process.local_port
      <> " -sTCP:LISTEN -t 2>/dev/null"

  abbrev ss_of : String → String
  ss_of tool = tool <> " -H -ltn sport = :" <> to_string_ℤ process.local_port <> " 2>/dev/null"

  abbrev probe : S.State → Bool × S.State
  probe = probe_tcp_port_listening_for_readiness S process.bind_address process.local_port

  probe_lem :
      (st : S.State)
      → let lsof = probe_with S (resolve_executable_path S "lsof") lsof_of st in
        probe st ≡ (
          if lsof.0
          then (true, lsof.1)
          else probe_with S (resolve_executable_path S "ss") ss_of lsof.1)
  unfolding probe_tcp_port_listening_for_readiness
  probe_lem st = refl

  probe-IsListening : (st : S.State) → (probe st).0 ≡ true → IsListening st (probe st).1
  probe-IsListening st h =
      let lsof = probe_with S (resolve_executable_path S "lsof") lsof_of st in
      elim (Bool-cases lsof.0) [
        | inl l ↦
            let q : probe st ≡ (true, lsof.1) = probe_lem st ∙ rw l in
            subst (λ p. IsListening st p.1) (sym q)
              (inl (probe_with-Prints (resolve_executable_path S "lsof") lsof_of st l))
        | inr l ↦
            let ss = probe_with S (resolve_executable_path S "ss") ss_of lsof.1 in
            let q : probe st ≡ ss = probe_lem st ∙ rw l in
            let printed =
              probe_with-Prints (resolve_executable_path S "ss") ss_of lsof.1
                (sym (ap (λ p. p.0) q) ∙ h) in
            let same = probe_with-state (resolve_executable_path S "lsof") lsof_of st in
            subst (λ p. IsListening st p.1) (sym q)
              (inr (
                printed.0,
                printed.1,
                subst (λ s. Prints (ss_command printed.0) s ss.1) same printed.2,
              ))
      ]

  Prints-probe_with :
      (tool : Option String) (t : String) (command : String → String) (st after : S.State)
      → tool ≡ some t
      → Prints (command (shell_quote t)) st after
      → (probe_with S tool command st).0 ≡ true
  unfolding command_produces_output
  Prints-probe_with tool t command st after e (output, n, o) = rw (e, o, n)

  IsListening-probe :
      (st : S.State) → ((after : S.State) × IsListening st after) → (probe st).0 ≡ true
  IsListening-probe st (after, inl (tool, e, printed)) =
      let lsof = Prints-probe_with _ tool lsof_of st after e printed in
      ap (λ p. p.0) (probe_lem st) ∙ rw lsof
  IsListening-probe st (after, inr (tool, e, printed)) =
      let lsof = probe_with S (resolve_executable_path S "lsof") lsof_of st in
      let same = probe_with-state (resolve_executable_path S "lsof") lsof_of st in
      let ss =
        Prints-probe_with _ tool ss_of lsof.1 after e
          (subst (λ s. Prints (ss_command tool) s after) (sym same) printed) in
      ap (λ p. p.0) (probe_lem st) ∙ either lsof.0 _ _ ss
    where
      either :
          (b : Bool) (r : Bool × S.State) (s : S.State)
          → r.0 ≡ true
          → ◌≡◌ {A = Bool} (if b then (true, s) else r).0 true
      either true r s h = refl
      either false r s h = h

  -- The process runs and neither command lists a listener.
  abbrev pub IsUnready : S.State → Type 0
  IsUnready st = IsRunning st × (¬ ((after : S.State) × IsListening (polled st) after))

  abbrev poll : S.State → Option WaitStatus × S.State
  poll = poll_process_exit_status S process.pid

  poll-state : (st : S.State) → (poll st).1 ≡ polled st
  unfolding poll_process_exit_status
  poll-state st = elim (Bool-cases (leb_ℤ process.pid (pos 0))) [
    | inl l ↦ rw (l, poll_process_exit_status)
    | inr l ↦ rw (l, poll_process_exit_status)
  ]

  -- Whether the process runs, or with which status it has exited.
  poll-cases :
      (st : S.State)
      → ((poll st).0 ≡ none) × IsRunning st
        ⊎ ((status : WaitStatus) × ((poll st).0 ≡ some status)
            × (leb_ℤ process.pid (pos 0) ≡ false)
            × (S.waitpid process.pid st ≡ (some status, (poll st).1)))
  unfolding poll_process_exit_status
  poll-cases st = elim (Bool-cases (leb_ℤ process.pid (pos 0))) [
    | inl l ↦ inl (rw (l, poll_process_exit_status), inl l)
    | inr l ↦ elim (Option-cases (S.waitpid process.pid st).0) [
      | inl w ↦ inl (rw (l, w, poll_process_exit_status), inr w)
      | inr (status, w) ↦ inr (
        status,
        rw (l, w, poll_process_exit_status),
        l,
        rw (l, poll_process_exit_status) (ap (λ o. (o, (S.waitpid process.pid st).1)) w),
      )
    ]
  ]

  check_ready_running :
      (st : S.State)
      → (poll st).0 ≡ none
      → check_ready S timeout_ms process st
        ≡ (if (probe (polled st)).0 then some none else none, (probe (polled st)).1)
  unfolding check_ready
  check_ready_running st e =
      let q : check_ready S timeout_ms process st
          ≡ (if (probe (poll st).1).0 then some none else none, (probe (poll st).1).1) =
        rw (e, check_ready) in
      q ∙ ap (λ s. (if (probe s).0 then some none else none, (probe s).1)) (poll-state st)

  check_ready_exited :
      (st : S.State) (status : WaitStatus)
      → (poll st).0 ≡ some status
      → check_ready S timeout_ms process st
        ≡ (some (some (exited_early S timeout_ms process status)), (poll st).1)
  unfolding check_ready
  check_ready_exited st status e = rw (e, check_ready)

  -- What one check says of the process: to wait on, that it runs and its port is open, or that it
  -- has exited.
  abbrev pub Says : S.State → Type 0
  Says st =
      ((check_ready S timeout_ms process st).0 ≡ none) × IsUnready st
      ⊎ (((check_ready S timeout_ms process st).0 ≡ some none)
          × IsRunning st
          × IsListening (polled st) (check_ready S timeout_ms process st).1)
      ⊎ ((error : String) × ((check_ready S timeout_ms process st).0 ≡ some (some error))
          × HasExited st error (check_ready S timeout_ms process st).1)

  pub check_ready-Says : (st : S.State) → Says st
  check_ready-Says st = elim (poll-cases st) [
    | inr (status, e, above, w) ↦
        let q = check_ready_exited st status e in
        let state = ap (λ s. (some status, s)) (sym (ap (λ r. r.1) q)) in
        inr (
          inr (
            exited_early S timeout_ms process status,
            ap (λ r. r.0) q,
            (status, above, w ∙ state, refl),
          ))
    | inl (e, running) ↦
        let q = check_ready_running st e in
        elim (Bool-cases (probe (polled st)).0) [
          | inl p ↦ inr (
              inl (
                ap (λ r. r.0) q ∙ rw p,
                running,
                subst (IsListening (polled st)) (sym (ap (λ r. r.1) q))
                    (probe-IsListening (polled st) p),
              ))
          | inr p ↦ inl (
            ap (λ r. r.0) q ∙ rw p,
            (running, λ listening. let y = IsListening-probe (polled st) listening in cc),
          )
        ]
  ]
