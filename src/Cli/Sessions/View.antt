-- ===== src/Cli/Sessions/View.antt =====
-- The runtime state as a map: for each pair of a config and an environment, at most one session.
use kubeforward.Base.{
  ◌≤◌, length, is_empty, ◌≡◌, refl, sym, ◌∙◌, inl, inr, String, Bool, true, false, ◌&&◌, Option,
  none, some, List, [], ◌∷◌, ◌++◌, subst, append-nil, ◌==◌, string_eq, if◌then◌else◌, arith,
  Bool-cases,
}
use kubeforward.Session.{ManagedSession}
use kubeforward.Cli.Sessions.{matching_sessions_from, remove_matching_from}

abbrev pub owns : ManagedSession → String → String → Bool
owns session path env = session.config_path == path && session.environment == env

-- The sessions of one config and one environment.
abbrev pub sessions_of : List ManagedSession → String → String → List ManagedSession
sessions_of [] path env = []
sessions_of (session ∷ sessions) path env =
    let rest = sessions_of sessions path env in
    if owns session path env then session ∷ rest else rest

-- What the state stands for.
abbrev pub SessionMap : Type 0
SessionMap = String → String → Option ManagedSession

abbrev pub listed : Option ManagedSession → List ManagedSession
listed none = []
listed (some session) = session ∷ []

-- The state holds the sessions of the map, one for each pair that has one, and no others.
abbrev pub Represents : List ManagedSession → SessionMap → Type 0
Represents sessions m = (path env : String) → sessions_of sessions path env ≡ listed (m path env)

abbrev pub clear : String → String → SessionMap → SessionMap
clear path env m p e = if path == p && env == e then none else m p e

abbrev pub assign : ManagedSession → SessionMap → SessionMap
assign session m p e = if owns session p e then some session else m p e

pub sessions_of-append :
    (xs ys : List ManagedSession) (path env : String)
    → sessions_of (xs ++ ys) path env ≡ sessions_of xs path env ++ sessions_of ys path env
sessions_of-append [] ys path env = refl
sessions_of-append (x ∷ xs) ys path env = let ih = sessions_of-append xs ys path env in ground arith

removed_same :
    (sessions : List ManagedSession) (path env p e : String)
    → (path == p && env == e) ≡ true
    → sessions_of (remove_matching_from sessions path env) p e ≡ []
unfolding remove_matching_from
removed_same [] path env p e h = refl
removed_same (x ∷ xs) path env p e h = let ih = removed_same xs path env p e h in ground arith

removed_other :
    (sessions : List ManagedSession) (path env p e : String)
    → (path == p && env == e) ≡ false
    → sessions_of (remove_matching_from sessions path env) p e ≡ sessions_of sessions p e
unfolding remove_matching_from
removed_other [] path env p e h = refl
removed_other (x ∷ xs) path env p e h = let ih = removed_other xs path env p e h in ground arith

-- Removing the sessions of a config and an environment clears their place in the map.
pub remove-Represents :
    (sessions : List ManagedSession) (m : SessionMap) (path env : String)
    → Represents sessions m
    → Represents (remove_matching_from sessions path env) (clear path env m)
remove-Represents sessions m path env h p e = elim (Bool-cases (path == p && env == e)) [
  | inr n ↦ rw n (removed_other sessions path env p e n ∙ h p e)
  | inl y ↦ rw y (removed_same sessions path env p e y)
]

-- Removing them and adding a session of theirs puts that one in their place.
pub put-Represents :
    (sessions : List ManagedSession) (m : SessionMap) (session : ManagedSession)
    → Represents sessions m
    → Represents
        (remove_matching_from sessions session.config_path session.environment ++ session ∷ [])
        (assign session m)
put-Represents sessions m session h p e =
    let path = session.config_path in
    let env = session.environment in
    let kept = remove_matching_from sessions path env in
    sessions_of-append kept (session ∷ []) p e ∙ elim (Bool-cases (owns session p e)) [
      | inl y ↦ rw (removed_same sessions path env p e y, y)
      | inr n ↦ rw (removed_other sessions path env p e n, h p e, n) (append-nil (listed (m p e)))
    ]

-- The same, where the keys of the session are given by equations.
pub put_at-Represents :
    (sessions : List ManagedSession) (m : SessionMap) (path env : String) (session : ManagedSession)
    → session.config_path ≡ path
    → session.environment ≡ env
    → Represents sessions m
    → Represents (remove_matching_from sessions path env ++ session ∷ []) (assign session m)
put_at-Represents sessions m path env session p e h =
    subst (λ x. Represents (remove_matching_from sessions x env ++ session ∷ []) (assign session m))
      p
      (subst
        (λ x.
          Represents (remove_matching_from sessions session.config_path x ++ session ∷ [])
            (assign session m))
        e (put-Represents sessions m session h))

-- At most one session for each config and environment.
abbrev pub IsUnique : List ManagedSession → Type 0
IsUnique sessions = (path env : String) → length (sessions_of sessions path env) ≤ 1

abbrev pub first_of : List ManagedSession → Option ManagedSession
first_of [] = none
first_of (session ∷ sessions) = some session

listed-first_of :
    (sessions : List ManagedSession) → length sessions ≤ 1 → listed (first_of sessions) ≡ sessions
listed-first_of [] h = refl
listed-first_of (s ∷ []) h = refl
listed-first_of (s ∷ t ∷ sessions) h = absurd (omega (arith, h))

length-listed : (o : Option ManagedSession) → length (listed o) ≤ 1
length-listed none = omega arith
length-listed (some session) = omega arith

pub first_of-Represents :
    (sessions : List ManagedSession)
    → IsUnique sessions
    → Represents sessions (λ path env. first_of (sessions_of sessions path env))
first_of-Represents sessions h path env =
    sym (listed-first_of (sessions_of sessions path env) (h path env))

pub Represents-IsUnique :
    (sessions : List ManagedSession) (m : SessionMap) → Represents sessions m → IsUnique sessions
Represents-IsUnique sessions m h path env = rw (h path env) (length-listed (m path env))

-- For an environment with a name, the sessions that a command is about are those of the pair.
pub matching-eq-sessions_of :
    (sessions : List ManagedSession) (path env : String)
    → is_empty env ≡ false
    → matching_sessions_from sessions path env ≡ sessions_of sessions path env
unfolding matching_sessions_from
matching-eq-sessions_of [] path env h = refl
matching-eq-sessions_of (x ∷ xs) path env h =
    let ih = matching-eq-sessions_of xs path env h in ground arith
