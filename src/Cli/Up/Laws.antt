-- ===== src/Cli/Up/Laws.antt =====
-- When `up` reports a session, it is the one session of its config and environment, and it is saved.
use kubeforward.Base.{
  String, ◌≡◌, refl, sym, ap, ◌∙◌, ◌⊎◌, inl, inr, Bool, false, Option, none, List, [], ◌∷◌, ◌++◌,
  map, empty, is_empty, string_eq, ==_iff, arith, Bool-cases, Option-cases,
}
use kubeforward.Base.Int.{ℤ}
use kubeforward.Config.{PortMapping}
use kubeforward.Plan.Types.{ResolvedEnvironment}
use kubeforward.Session.{ManagedForwardProcess, ManagedSession, RuntimeState}
use kubeforward.Cli.Requests.{Result, done, failed, StartProcessRequest, PreparedForwardLaunch}
use kubeforward.Cli.Launch.{validate_sessions_support_rollback}
use kubeforward.Cli.Sessions.{
  matching_sessions_from, remove_matching_from, matching_sessions, remove_matching_sessions,
}
use kubeforward.Cli.Sessions.Laws.{removed_from}
use kubeforward.Cli.Down.{System}
use kubeforward.Cli.Start.{
  make_managed_session, new_process, start_managed_session, restore_replaced_sessions,
}
use kubeforward.Cli.Start.Laws.{Result-cases, start_all-Outcome}
use kubeforward.Cli.Up.{
  Socket, UpResult, refused, running, stop_replaced, preflight, preflight_after_stopping, roll_back,
  next_state, start_and_save, replace_and_start, up, existing_sessions,
}

matching_append :
    (path env : String) (xs ys : List ManagedSession)
    → matching_sessions_from (xs ++ ys) path env
      ≡ matching_sessions_from xs path env ++ matching_sessions_from ys path env
unfolding matching_sessions_from
matching_append path env [] ys = refl
matching_append path env (x ∷ xs) ys = let ih = matching_append path env xs ys in ground arith

matching_one :
    (path env : String) (session : ManagedSession)
    → session.config_path ≡ path
    → session.environment ≡ env
    → matching_sessions_from (session ∷ []) path env ≡ session ∷ []
unfolding matching_sessions_from
matching_one path env session p e =
    let same_path = (==_iff session.config_path path).1 p in
    let same_env = (==_iff session.environment env).1 e in ground arith

abbrev owner : Result ManagedSession → String × String
owner (done session) = (session.config_path, session.environment)
owner (failed error) = ("", "")

module _ (S : System) (sockets : PortMapping → S.State → Socket) (path : String)
    (resolved_env : ResolvedEnvironment) (daemon : Bool)
    (prepared_launches : Result (List PreparedForwardLaunch)) (state : RuntimeState)
    (conflict kubectl_error : Option String)
    (start : StartProcessRequest → S.State → Result ℤ × S.State) (skip : Bool)
    (wait : ManagedForwardProcess → S.State → Option String × S.State)
    (save : RuntimeState → Option String) (id_time utc_now : String)
    (error_of_save : String → String) where
  -- `up` is refused, or a session of the config and the environment runs, and the state with it in
  -- place of those that match is saved.
  abbrev pub Settles : UpResult → Type 0
  Settles result =
      ((lines : List String) × (result ≡ refused lines))
      ⊎ ((session : ManagedSession) × (state' : RuntimeState) × (result ≡ running session state')
          × (save state' ≡ none)
          × (session.config_path ≡ path)
          × (session.environment ≡ resolved_env.name)
          × (state'.sessions
              ≡ (remove_matching_sessions state path resolved_env.name).sessions ++ session ∷ []))

  abbrev existing : List ManagedSession
  existing =
      existing_sessions S sockets path resolved_env daemon prepared_launches state conflict
        kubectl_error start skip wait save id_time utc_now

  start_keeps :
      (launches : List PreparedForwardLaunch) (session : ManagedSession) (st : S.State)
      → (start_managed_session S start skip wait path resolved_env daemon launches id_time utc_now
          st).0
        ≡ done session
      → (session.config_path ≡ path) × (session.environment ≡ resolved_env.name)
  unfolding start_managed_session make_managed_session
  start_keeps launches session st h =
      elim (start_all-Outcome S start skip wait "start"
        (map (new_process resolved_env.name) launches)
        (make_managed_session path resolved_env daemon id_time utc_now) st) [
          | inl (processes, _, o) ↦
              (ap (λ r. (owner r).0) (sym h ∙ o), ap (λ r. (owner r).1) (sym h ∙ o))
          | inr (_, _, _, _, _, _, _, _, _, _, _, o, _) ↦ absurd (cc (h, o))
        ]

  roll_back-Settles :
      (error : String) (st : S.State)
      → Settles
          (roll_back S sockets path resolved_env daemon prepared_launches state conflict
            kubectl_error start skip wait save id_time utc_now error st).0
  unfolding roll_back
  roll_back-Settles error st = elim (Bool-cases (empty existing)) [
    | inl e ↦ rw (e, roll_back) (inl (_, refl))
    | inr e ↦
        elim (Result-cases (restore_replaced_sessions S start skip wait save state existing st).0) [
          | inl (_, r) ↦ rw (e, r, roll_back) (inl (_, refl))
          | inr (_, r) ↦ rw (e, r, roll_back) (inl (_, refl))
        ]
  ]

  start_and_save-Settles :
      (launches : List PreparedForwardLaunch) (st : S.State)
      → Settles
          (start_and_save S sockets path resolved_env daemon prepared_launches state conflict
            kubectl_error start skip wait save id_time utc_now error_of_save launches st).0
  unfolding start_and_save
  start_and_save-Settles launches st =
      let started =
        start_managed_session S start skip wait path resolved_env daemon launches id_time utc_now
          st in
      elim (Result-cases started.0) [
        | inl (e, r) ↦ rw (r, start_and_save) (roll_back-Settles e started.1)
        | inr (session, r) ↦
            let next =
              next_state S sockets path resolved_env daemon prepared_launches state conflict
                kubectl_error start skip wait save id_time utc_now session in
            let (p, q) = start_keeps launches session st r in
            elim (Option-cases (save next)) [
              | inl v ↦ rw (r, v, start_and_save) (inr (session, next, refl, v, p, q, refl))
              | inr (e, v) ↦ rw (r, v, start_and_save) (roll_back-Settles _ _)
            ]
      ]

  replace_and_start-Settles :
      (launches : List PreparedForwardLaunch) (st : S.State)
      → Settles
          (replace_and_start S sockets path resolved_env daemon prepared_launches state conflict
            kubectl_error start skip wait save id_time utc_now error_of_save launches st).0
  unfolding replace_and_start
  replace_and_start-Settles launches st =
      let s =
        stop_replaced S sockets existing
          (record { stop_failed = false; stopped_processes = 0; system = st }) in
      elim (Bool-cases (empty existing)) [
        | inl e ↦ rw (e, replace_and_start) (start_and_save-Settles launches st)
        | inr e ↦ elim (Bool-cases s.stop_failed) [
          | inl f ↦ rw (e, f, replace_and_start) (inl (_, refl))
          | inr f ↦
              elim (Option-cases (
                preflight_after_stopping S sockets path resolved_env daemon prepared_launches state
                  conflict kubectl_error start skip wait save id_time utc_now s.system)) [
                    | inl c ↦
                        rw (e, f, c, replace_and_start) (start_and_save-Settles launches s.system)
                    | inr (error, c) ↦ rw (e, f, c, replace_and_start) (roll_back-Settles _ _)
                  ]
        ]
      ]

  -- Whatever the system answers, `up` is refused, or the session that it reports is of the config and
  -- the environment, and the state in which it takes the place of those that matched is saved.
  pub up-Settles :
      (st : S.State)
      → Settles
          (up S sockets path resolved_env daemon prepared_launches state conflict kubectl_error
            start skip wait save id_time utc_now error_of_save st).0
  unfolding up
  up-Settles st = elim (Option-cases (validate_sessions_support_rollback existing)) [
    | inr (e, v) ↦ rw (v, up) (inl (_, refl))
    | inl v ↦ elim (Result-cases prepared_launches) [
      | inl (e, l) ↦ rw (v, l, up) (inl (_, refl))
      | inr (launches, l) ↦
          elim (Option-cases (
            preflight S sockets path resolved_env daemon prepared_launches state conflict
              kubectl_error start skip wait save id_time utc_now st)) [
                | inr (e, p) ↦ rw (v, l, p, up) (inl (_, refl))
                | inl p ↦ rw (v, l, p, up) (replace_and_start-Settles launches st)
              ]
    ]
  ]

  only_one :
      (session : ManagedSession) (state' : RuntimeState)
      → is_empty resolved_env.name ≡ false
      → session.config_path ≡ path
      → session.environment ≡ resolved_env.name
      → state'.sessions
        ≡ (remove_matching_sessions state path resolved_env.name).sessions ++ session ∷ []
      → matching_sessions state' path resolved_env.name ≡ session ∷ []
  unfolding matching_sessions remove_matching_sessions
  only_one session state' named p e m =
      ap (λ xs. matching_sessions_from xs path resolved_env.name) m
      ∙ matching_append path resolved_env.name
          (remove_matching_from state.sessions path resolved_env.name) (session ∷ [])
      ∙ ap (λ xs. xs ++ matching_sessions_from (session ∷ []) path resolved_env.name)
          (removed_from path resolved_env.name named state.sessions)
      ∙ matching_one path resolved_env.name session p e

  -- For an environment with a name: when `up` reports a session, that session is the only one of the
  -- config and the environment in the state that it gives, and that state was saved.
  pub up-matching_sessions :
      (session : ManagedSession) (state' : RuntimeState) (st : S.State)
      → is_empty resolved_env.name ≡ false
      → (up S sockets path resolved_env daemon prepared_launches state conflict kubectl_error start
          skip wait save id_time utc_now error_of_save st).0
        ≡ running session state'
      → (matching_sessions state' path resolved_env.name ≡ session ∷ []) × (save state' ≡ none)
  up-matching_sessions session state' st named h = elim (up-Settles st) [
    | inl (lines, o) ↦ absurd (cc (h, o))
    | inr (session2, state2, o, v, p, e, m) ↦
        let one = only_one session2 state2 named p e m in
        let same_session : session ≡ session2 = cc (h, o) in
        let same_state : state' ≡ state2 = cc (h, o) in
        (
          ap (λ s. matching_sessions s path resolved_env.name) same_state
              ∙ one
              ∙ ap (λ s. s ∷ []) (sym same_session),
          ap save same_state ∙ v,
        )
  ]
