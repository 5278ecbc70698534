-- ===== src/Cli/Sessions.antt =====
-- src/cli/cli.cpp: which sessions a command is about.
pub mod Laws
pub mod View
use kubeforward.Base.{
  ℕ, String, Bool, true, false, not, ◌&&◌, ◌||◌, Option, none, some, List, [], ◌∷◌, ◌==◌, string_eq,
  if◌then◌else◌, is_empty, length,
}
use kubeforward.Base.Map.{Map}
use kubeforward.Config.{Config, EnvironmentDefinition}
use kubeforward.Session.{ManagedSession, RuntimeState}

unfoldable pub resolve_single_environment : Config → String → Option String
resolve_single_environment config env_filter =
    if is_empty env_filter
    then elim config.environments [ [] ↦ none | (name, _) ∷ _ ↦ some name ]
    else some env_filter

abbrev pub count_session_forwards : ManagedSession → ℕ
count_session_forwards session = length session.forwards

-- The loop of `MatchingSessions`.
unfoldable pub matching_sessions_from : List ManagedSession → String → String → List ManagedSession
matching_sessions_from [] normalized_config_path env_filter = []
matching_sessions_from (session ∷ sessions) normalized_config_path env_filter =
    let rest = matching_sessions_from sessions normalized_config_path env_filter in
    if not (session.config_path == normalized_config_path)
    then rest
    else if not (is_empty env_filter) && not (session.environment == env_filter)
    then rest
    else session ∷ rest

unfoldable pub matching_sessions : RuntimeState → String → String → List ManagedSession
unfolding matching_sessions_from
matching_sessions state normalized_config_path env_filter =
    matching_sessions_from state.sessions normalized_config_path env_filter

unfoldable pub remove_matching_from : List ManagedSession → String → String → List ManagedSession
remove_matching_from [] normalized_config_path environment = []
remove_matching_from (session ∷ sessions) normalized_config_path environment =
    let rest = remove_matching_from sessions normalized_config_path environment in
    if session.config_path == normalized_config_path && session.environment == environment
    then rest
    else session ∷ rest

unfoldable pub remove_matching_sessions : RuntimeState → String → String → RuntimeState
unfolding remove_matching_from
remove_matching_sessions state normalized_config_path environment = record {
  sessions = remove_matching_from state.sessions normalized_config_path environment;
}
