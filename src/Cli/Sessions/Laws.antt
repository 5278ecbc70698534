-- ===== src/Cli/Sessions/Laws.antt =====
-- `up` replaces the sessions that match and no others.
use kubeforward.Base.{
  ◌≡◌, refl, String, false, ◌&&◌, List, [], ◌∷◌, ◌==◌, string_eq, arith, is_empty,
}
use kubeforward.Session.{ManagedSession, RuntimeState}
use kubeforward.Cli.Sessions.{
  matching_sessions_from, matching_sessions, remove_matching_from, remove_matching_sessions,
}

module _ (path env : String) (named : is_empty env ≡ false) where
  pub removed_from :
      (sessions : List ManagedSession)
      → matching_sessions_from (remove_matching_from sessions path env) path env ≡ []
  unfolding matching_sessions_from remove_matching_from
  removed_from [] = refl
  removed_from (session ∷ sessions) = let ih = removed_from sessions in ground arith

  unmatched_from :
      (other_path other_env : String) (sessions : List ManagedSession)
      → (other_path == path && other_env == env) ≡ false
      → is_empty other_env ≡ false
      → matching_sessions_from (remove_matching_from sessions path env) other_path other_env
        ≡ matching_sessions_from sessions other_path other_env
  unfolding matching_sessions_from remove_matching_from
  unmatched_from other_path other_env [] h k = refl
  unmatched_from other_path other_env (session ∷ sessions) h k =
      let ih = unmatched_from other_path other_env sessions h k in ground arith

  -- For a named environment, removing its sessions leaves none that match it, and for every other
  -- pair of a config and a named environment the sessions that match are the same as before.
  pub matching_sessions-remove_matching_sessions :
      (state : RuntimeState) (other_path other_env : String)
      → (other_path == path && other_env == env) ≡ false
      → is_empty other_env ≡ false
      → (matching_sessions (remove_matching_sessions state path env) path env ≡ [])
        × (matching_sessions (remove_matching_sessions state path env) other_path other_env
            ≡ matching_sessions state other_path other_env)
  unfolding matching_sessions remove_matching_sessions
  matching_sessions-remove_matching_sessions state other_path other_env h k =
      (removed_from state.sessions, unmatched_from other_path other_env state.sessions h k)
