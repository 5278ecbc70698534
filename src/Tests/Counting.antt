-- ===== src/Tests/Counting.antt =====
-- The counts of two sessions.
use kubeforward.Base.{◌≡◌, refl, some, [], ◌∷◌, List, string_eq}
use kubeforward.Base.Map.{lookup, insert}
use kubeforward.Session.{ManagedSession}
use kubeforward.Cli.DownCommand.{count_environments, count_environment}
use kubeforward.Cli.DownCommand.Counts.{lookup-count_environments}
use kubeforward.Tests.Running.{dev_session, web_process}

abbrev two_sessions : List ManagedSession
two_sessions =
    record dev_session { environment = "prod" }
    ∷ record dev_session { forwards = web_process ∷ web_process ∷ [] }
    ∷ []

lookup-count_environments_example :
    lookup "dev" (count_environments (dev_session ∷ two_sessions) []) ≡ some 3
unfolding string_eq
lookup-count_environments_example = lookup-count_environments "dev" (dev_session ∷ two_sessions)

counts_in_order : count_environments (dev_session ∷ two_sessions) [] ≡ ("dev", 3) ∷ ("prod", 1) ∷ []
unfolding count_environments count_environment lookup insert string_eq
counts_in_order = refl
