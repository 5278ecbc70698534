-- ===== src/Tests/Stepping.antt =====
-- `up` and a restored session as steps on the saved state.
use kubeforward.Base.{◌≡◌, refl, true, false, none, List, [], ◌∷◌, string_eq, arith}
use kubeforward.Base.Int.{ℤ, pos}
use kubeforward.Session.{ManagedSession, RuntimeState}
use kubeforward.Cli.Requests.{Result, done, StartProcessRequest}
use kubeforward.Cli.Launch.{restore_launches, build_prepared_launches_from_session}
use kubeforward.Cli.Sessions.{remove_matching_sessions}
use kubeforward.Cli.Sessions.View.{SessionMap, Represents, IsUnique, assign}
use kubeforward.Cli.Start.{
  restored_processes, ready_error, start_all, restore_managed_session, restore_snapshot,
  restore_sessions, restore_replaced_sessions,
}
use kubeforward.Cli.Start.Restore.{Restored, restore_replaced_sessions-Restored}
use kubeforward.Cli.Steps.{up-Represents, Step, up_saves, here, next, Reach-IsUnique}
use kubeforward.Tests.Running.{obedient, prod_environment, dev_session, web_process, running}
use kubeforward.Tests.Starting.{always_starts}
use kubeforward.Tests.Upping.{
  free_port, no_state, saves, launches, is_ready, as_it_is, upped_session, runs,
}

abbrev pub no_sessions_map : SessionMap
no_sessions_map path env = none

abbrev upped_state : RuntimeState
upped_state = record { sessions = upped_session ∷ [] }

up-Represents_example :
    (saves upped_state ≡ none)
    × Represents upped_state.sessions (assign upped_session no_sessions_map)
    × (upped_session.config_path ≡ "kubeforward.yaml")
    × (upped_session.environment ≡ "prod")
up-Represents_example =
    up-Represents obedient free_port "kubeforward.yaml" prod_environment true launches no_state none
      none always_starts false is_ready saves "" "" as_it_is no_sessions_map upped_session
      upped_state [] (λ path env. refl) runs

-- The process comes back with another pid.
abbrev starts_as_42 : StartProcessRequest → List ℤ → Result ℤ × List ℤ
starts_as_42 request st = (done (pos 42), st)

abbrev dev_again : ManagedSession
dev_again = record dev_session { forwards = record web_process { pid = pos 42 } ∷ [] }

abbrev only_dev : SessionMap
only_dev = assign dev_session no_sessions_map

running-Represents : Represents running.sessions only_dev
running-Represents path env = ground arith

restores_dev :
    (restore_replaced_sessions obedient starts_as_42 true is_ready saves running
      (dev_session ∷ [])
      []).0
    ≡ done (record { sessions = dev_again ∷ [] })
unfolding restore_replaced_sessions restore_sessions restore_snapshot restore_managed_session
    start_all ready_error restored_processes restore_launches build_prepared_launches_from_session
    remove_matching_sessions string_eq
restores_dev = refl

restore_replaced_sessions-Restored_example :
    (saves (record { sessions = dev_again ∷ [] }) ≡ none)
    × (m' : SessionMap) × Restored (dev_session ∷ []) only_dev m'
    × Represents (dev_again ∷ []) m'
restore_replaced_sessions-Restored_example =
    restore_replaced_sessions-Restored obedient starts_as_42 true is_ready saves running
      (record { sessions = dev_again ∷ [] }) (dev_session ∷ []) only_dev [] running-Represents
      restores_dev

upped : Step no_state upped_state
upped =
    up_saves obedient free_port "kubeforward.yaml" prod_environment true launches none none
      always_starts false is_ready saves "" "" as_it_is upped_session [] runs

Reach-IsUnique_example : IsUnique upped_state.sessions
Reach-IsUnique_example =
    Reach-IsUnique {state = no_state} (λ path env. omega arith) (next here upped)
