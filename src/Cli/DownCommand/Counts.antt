-- ===== src/Cli/DownCommand/Counts.antt =====
-- What `down` counts for each environment.
use kubeforward.Base.{
  ℕ, ◌+◌, ◌≡◌, ◌∙◌, ap, String, Bool, true, false, ◌||◌, Option, none, some, List, [], ◌∷◌, ◌==◌,
  string_eq, if◌then◌else◌, arith, Option-cases, inl, inr,
}
use kubeforward.Base.Map.{Map, lookup, lookup-insert}
use kubeforward.Session.{ManagedSession}
use kubeforward.Cli.Sessions.{count_session_forwards}
use kubeforward.Cli.DownCommand.{count_environment, count_environments}

-- Some session is of the environment.
abbrev pub has_environment : String → List ManagedSession → Bool
has_environment name [] = false
has_environment name (session ∷ sessions) =
    session.environment == name || has_environment name sessions

-- The forwards of the sessions of the environment.
abbrev pub forwards_in : String → List ManagedSession → ℕ
forwards_in name [] = 0
forwards_in name (session ∷ sessions) =
    let rest = forwards_in name sessions in
    if session.environment == name then count_session_forwards session + rest else rest

abbrev counted : Option ℕ → ℕ
counted none = 0
counted (some n) = n

abbrev is_counted : Option ℕ → Bool
is_counted none = false
is_counted (some n) = true

lookup-count_environment :
    (name : String) (session : ManagedSession) (counts : Map ℕ)
    → lookup name (count_environment session counts) ≡ (
        if session.environment == name
        then some (counted (lookup name counts) + count_session_forwards session)
        else lookup name counts)
unfolding count_environment
lookup-count_environment name session counts =
    lookup-insert name session.environment _ counts ∙ ground arith

lookup-count_environments_from :
    (name : String) (sessions : List ManagedSession) (counts : Map ℕ)
    → lookup name (count_environments sessions counts) ≡ (
        if is_counted (lookup name counts) || has_environment name sessions
        then some (counted (lookup name counts) + forwards_in name sessions)
        else none)
unfolding count_environments
lookup-count_environments_from name [] counts = elim (Option-cases (lookup name counts)) [
  | inl e ↦ rw e
  | inr (n, e) ↦ rw e (ap some (omega arith))
]
lookup-count_environments_from name (session ∷ sessions) counts =
    let one = lookup-count_environment name session counts in
    let rest = lookup-count_environments_from name sessions (count_environment session counts) in
    ground (arith, one, rest)

-- Before its sessions are stopped, `down` counts for an environment the forwards of all the sessions
-- of this environment, and has no count for an environment of none.
pub lookup-count_environments :
    (name : String) (sessions : List ManagedSession)
    → lookup name (count_environments sessions [])
      ≡ (if has_environment name sessions then some (forwards_in name sessions) else none)
unfolding lookup
lookup-count_environments name sessions =
    ground (arith, lookup-count_environments_from name sessions [])
