-- ===== src/Cli/Steps.antt =====
-- The commands as steps on the saved state: each step is from the state that a command loaded to one
-- that it saved.
use kubeforward.Base.{
  ◌≤◌, length, ◌≡◌, sym, inl, inr, String, Bool, false, Option, none, List, [], ◌∷◌, string_eq,
  arith, Bool-cases, subst,
}
use kubeforward.Base.Int.{ℤ}
use kubeforward.Config.{PortMapping}
use kubeforward.Plan.Types.{ResolvedEnvironment}
use kubeforward.Session.{ManagedForwardProcess, ManagedSession, RuntimeState}
use kubeforward.Cli.Requests.{Result, done, StartProcessRequest, PreparedForwardLaunch}
use kubeforward.Cli.Sessions.{matching_sessions, remove_matching_from, remove_matching_sessions}
use kubeforward.Cli.Sessions.View.{
  SessionMap, Represents, IsUnique, owns, sessions_of, clear, assign, remove-Represents,
  put_at-Represents, first_of, first_of-Represents, Represents-IsUnique,
}
use kubeforward.Cli.Down.{System, Stopping, stop_session, erase_stopped, down}
use kubeforward.Cli.Start.{restore_replaced_sessions}
use kubeforward.Cli.Start.Restore.{restore_replaced_sessions-Restored}
use kubeforward.Cli.Up.{Socket, running, up}
use kubeforward.Cli.Up.Laws.{up-Settles}
use kubeforward.Cli.Foreground.{cleaned_state}

module _ (S : System) where
  -- Erasing leaves no more sessions of a config and an environment than there were.
  erase_stopped-le :
      (path env p e : String) (sessions : List ManagedSession) (s : Stopping S)
      → length (sessions_of (erase_stopped S path env sessions s).0 p e)
        ≤ length (sessions_of sessions p e)
  unfolding erase_stopped
  erase_stopped-le path env p e [] s = omega arith
  erase_stopped-le path env p e (session ∷ sessions) s =
      let one = stop_session S path env session s in
      let ih = erase_stopped-le path env p e sessions one.1 in
      elim (Bool-cases one.0) [
        | inl k ↦ elim (Bool-cases (owns session p e)) [
          | inl o ↦ rw (k, o) (omega (arith, ih))
          | inr o ↦ rw (k, o) ih
        ]
        | inr k ↦ elim (Bool-cases (owns session p e)) [
          | inl o ↦ rw (k, o) (omega (arith, ih))
          | inr o ↦ rw (k, o) ih
        ]
      ]

  module _ (sockets : PortMapping → S.State → Socket) (path : String)
      (resolved_env : ResolvedEnvironment) (daemon : Bool)
      (prepared_launches : Result (List PreparedForwardLaunch)) (state : RuntimeState)
      (conflict kubectl_error : Option String)
      (start : StartProcessRequest → S.State → Result ℤ × S.State) (skip : Bool)
      (wait : ManagedForwardProcess → S.State → Option String × S.State)
      (save : RuntimeState → Option String) (id_time utc_now : String)
      (error_of_save : String → String) where
    abbrev Puts : SessionMap → ManagedSession → RuntimeState → Type 0
    Puts m session state' =
        (save state' ≡ none)
        × Represents state'.sessions (assign session m)
        × (session.config_path ≡ path)
        × (session.environment ≡ resolved_env.name)

    -- When `up` reports a session, the state that it gives was saved and is the one that it loaded
    -- with the session put in the place of its config and environment; every other place is as it
    -- was.
    pub up-Represents :
        (m : SessionMap) (session : ManagedSession) (state' : RuntimeState) (st : S.State)
        → Represents state.sessions m
        → (up S sockets path resolved_env daemon prepared_launches state conflict kubectl_error
            start skip wait save id_time utc_now error_of_save st).0
          ≡ running session state'
        → (save state' ≡ none)
          × Represents state'.sessions (assign session m)
          × (session.config_path ≡ path)
          × (session.environment ≡ resolved_env.name)
    unfolding remove_matching_sessions
    up-Represents m session state' st h r =
        elim (up-Settles S sockets path resolved_env daemon prepared_launches state conflict
          kubectl_error start skip wait save id_time utc_now error_of_save st) [
            | inl (lines, o) ↦ absurd (cc (r, o))
            | inr (session2, state2, o, v, p, e, q) ↦
                let same_session : session2 ≡ session = cc (r, o) in
                let same_state : state2 ≡ state' = cc (r, o) in
                let sessions = remove_matching_from state.sessions path resolved_env.name in
                let put =
                  put_at-Represents state.sessions m path resolved_env.name session2 p e h in
                let settled : Puts m session2 state2 =
                  (v, subst (λ x. Represents x (assign session2 m)) (sym q) put, p, e) in
                subst (λ t. Puts m session t) same_state
                  (subst (λ x. Puts m x state2) same_session settled)
          ]

-- A command that saves a state, from the one that it loaded: an `up` that reports a session, one that
-- restores those that it replaced, `down`, and the end of a foreground session.
pub data Step (state : RuntimeState) (state' : RuntimeState) : Type 1 where
  up_saves :
      (S : System) (sockets : PortMapping → S.State → Socket) (path : String)
      (resolved_env : ResolvedEnvironment) (daemon : Bool)
      (prepared_launches : Result (List PreparedForwardLaunch))
      (conflict kubectl_error : Option String)
      (start : StartProcessRequest → S.State → Result ℤ × S.State) (skip : Bool)
      (wait : ManagedForwardProcess → S.State → Option String × S.State)
      (save : RuntimeState → Option String) (id_time utc_now : String)
      (error_of_save : String → String) (session : ManagedSession) (st : S.State)
      → (up S sockets path resolved_env daemon prepared_launches state conflict kubectl_error start
          skip wait save id_time utc_now error_of_save st).0
        ≡ running session state'
      → Step state state'
  up_restores :
      (S : System) (start : StartProcessRequest → S.State → Result ℤ × S.State) (skip : Bool)
      (wait : ManagedForwardProcess → S.State → Option String × S.State)
      (save : RuntimeState → Option String) (path env : String) (st : S.State)
      → (restore_replaced_sessions S start skip wait save state
          (matching_sessions state path env)
          st).0
        ≡ done state'
      → Step state state'
  down_saves :
      (S : System) (path env : String) (save : RuntimeState → Option String) (st : S.State)
      → state' ≡ (down S path env save state st).1
      → Step state state'
  foreground_ends :
      (session : ManagedSession) → state' ≡ cleaned_state state session → Step state state'

pub data Reach (state : RuntimeState) : RuntimeState → Type 1 where
  here : Reach state state
  next : {t u : RuntimeState} → Reach state t → Step t u → Reach state u

abbrev map_of : List ManagedSession → SessionMap
map_of sessions path env = first_of (sessions_of sessions path env)

Step-IsUnique : (t u : RuntimeState) → Step t u → IsUnique t.sessions → IsUnique u.sessions
unfolding down remove_matching_sessions
Step-IsUnique t u
      (up_saves S sockets path resolved_env daemon launches conflict kubectl start skip wait save
        id_time utc_now text session st r)
      h =
    let m = map_of t.sessions in
    let puts =
      up-Represents S sockets path resolved_env daemon launches t conflict kubectl start skip wait
        save id_time utc_now text m session u st (first_of-Represents t.sessions h) r in
    Represents-IsUnique u.sessions (assign session m) puts.1
Step-IsUnique t u (up_restores S start skip wait save path env st r) h =
    let (_, m', _, i) =
      restore_replaced_sessions-Restored S start skip wait save t u (matching_sessions t path env)
        (map_of t.sessions) st (first_of-Represents t.sessions h) r in
    Represents-IsUnique u.sessions m' i
Step-IsUnique t u (down_saves S path env save st r) h =
    subst (λ x. IsUnique x.sessions) (sym r)
      (λ p e. omega (
        arith,
        h p e,
        erase_stopped-le S path env p e t.sessions
            (record { stop_failed = false; stopped_processes = 0; system = st }),
      ))
Step-IsUnique t u (foreground_ends session r) h =
    let m = map_of t.sessions in
    subst (λ x. IsUnique x.sessions) (sym r)
      (Represents-IsUnique _ (clear session.config_path session.environment m) (
        remove-Represents t.sessions m session.config_path session.environment
          (first_of-Represents t.sessions h)))

-- Whatever sequence of commands saved the state, starting from one with at most one session for each
-- config and environment, such as the empty one: it has at most one for each.
pub Reach-IsUnique :
    {state state' : RuntimeState}
    → IsUnique state.sessions
    → Reach state state'
    → IsUnique state'.sessions
Reach-IsUnique h here = h
Reach-IsUnique h (next {t} {u} r s) = Step-IsUnique t u s (Reach-IsUnique h r)
