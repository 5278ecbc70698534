-- ===== src/Loader/Validate.antt =====
-- src/config/loader.cpp: the checks of one environment, and of forward names across environments.
pub mod Ports
pub mod Exact
use kubeforward.Base.{
  ℕ, suc, String, ◌<>◌, Bool, true, false, ◌&&◌, not, Option, none, some, List, [], ◌∷◌, ◌++◌, ◌==◌,
  contains, string_eq, if◌then◌else◌, is_empty, empty, length, leb,
}
use kubeforward.Base.Int.{ℤ, pos, int_eq}
use kubeforward.Base.Map.{Map, lookup, insert}
use kubeforward.Config.{Config, ForwardDefinition, EnvironmentDefinition, PortMapping}
use kubeforward.Loader.Errors.{Loaded, ◌>>=◌, ◌>>◌, return, add_error, skip, indexed}
use kubeforward.Loader.Ip.{is_ip_literal}
use kubeforward.Loader.Forwards.{context_for_forward}

-- One port mapping, on the set `local_ports`, which it returns.
unfoldable pub validate_local_port : ℤ → String → List ℤ → Loaded (List ℤ)
validate_local_port port context local_ports =
    if port == pos 0
    then (add_error context "local port missing" >> return local_ports)
    else if contains local_ports port
    then (add_error context "duplicate local port within environment" >> return local_ports)
    else return (port ∷ local_ports)

unfoldable pub validate_bind_address : Option String → String → Loaded (Unit {0})
validate_bind_address none context = skip
validate_bind_address (some bind) context =
    if not (is_empty bind) && not (is_ip_literal bind)
    then add_error context "must be an IPv4 literal"
    else skip

unfoldable pub validate_port : PortMapping → String → List ℤ → Loaded (List ℤ)
unfolding validate_local_port validate_bind_address
validate_port mapping context local_ports = do
  local_ports' ← validate_local_port mapping.local_port (context <> ".local") local_ports
  (if mapping.remote_port == pos 0
      then add_error (context <> ".remote") "remote port missing"
      else skip)
  validate_bind_address mapping.bind_address (context <> ".bindAddress")
  return local_ports'

unfoldable pub validate_ports : ℕ → List PortMapping → String → List ℤ → Loaded (List ℤ)
unfolding validate_port
validate_ports p [] context local_ports = return local_ports
validate_ports p (mapping ∷ mappings) context local_ports =
    validate_port mapping (indexed (context <> ".ports") p) local_ports >>= λ local_ports'.
    validate_ports (suc p) mappings context local_ports'

-- A forward's name, on the set `forward_names`, which it returns.
unfoldable pub validate_name : String → String → List String → Loaded (List String)
validate_name name context forward_names =
    if is_empty name
    then (add_error context "forward name cannot be empty" >> return forward_names)
    else if contains forward_names name
    then (add_error context "duplicate forward name within environment" >> return forward_names)
    else return (name ∷ forward_names)

-- The loop of `ValidateEnvironment` from index `idx` on.
unfoldable pub validate_forwards :
    ℕ → String → Bool → List ForwardDefinition → List String → List ℤ → Loaded (Unit {0})
unfolding validate_name validate_ports
validate_forwards idx env_name allow_production [] forward_names local_ports = skip
validate_forwards idx env_name allow_production (forward ∷ forwards) forward_names local_ports = do
  let context = context_for_forward env_name idx
  forward_names' ← validate_name forward.name (context <> ".name") forward_names
  (if empty forward.ports
      then add_error (context <> ".ports") "forward must define at least one port mapping"
      else skip)
  local_ports' ← validate_ports 0 forward.ports context local_ports
  (if allow_production && not forward.detach
      then add_error (context <> ".annotations.detach")
          "production environment requires detach=true for every forward"
      else skip)
  validate_forwards (suc idx) env_name allow_production forwards forward_names' local_ports'

unfoldable pub validate_environment : EnvironmentDefinition → Loaded (Unit {0})
unfolding validate_forwards
validate_environment env =
    validate_forwards 0 env.name env.guards.allow_production env.forwards [] []

unfoldable pub validate_environments : Map EnvironmentDefinition → Loaded (Unit {0})
unfolding validate_environment
validate_environments [] = skip
validate_environments ((_, env) ∷ envs) = validate_environment env >> validate_environments envs

-- `occurrences[name].push_back(env_name)`
abbrev pub push_occurrence : String → String → Map (List String) → Map (List String)
push_occurrence name env_name occurrences =
    insert name (elim (lookup name occurrences) [ some envs ↦ envs | none ↦ [] ] ++ (env_name ∷ []))
      occurrences

abbrev pub count_forwards : String → List ForwardDefinition → Map (List String) → Map (List String)
count_forwards env_name [] occurrences = occurrences
count_forwards env_name (forward ∷ forwards) occurrences =
    count_forwards env_name forwards (push_occurrence forward.name env_name occurrences)

unfoldable pub occurrences_of : Map EnvironmentDefinition → Map (List String) → Map (List String)
occurrences_of [] occurrences = occurrences
occurrences_of ((env_name, env) ∷ envs) occurrences =
    occurrences_of envs (count_forwards env_name env.forwards occurrences)

abbrev pub join : String → List String → String
join separator [] = ""
join separator (item ∷ []) = item
join separator (item ∷ next ∷ items) = item <> separator <> join separator (next ∷ items)

unfoldable pub report_occurrences : Map (List String) → Loaded (Unit {0})
report_occurrences [] = skip
report_occurrences ((forward_name, envs) ∷ occurrences) =
    (if is_empty forward_name
      then skip
      else if leb (length envs) 1
      then skip
      else add_error "environments"
          ("forward name '" <> forward_name <> "' used in environments: " <> join ", " envs))
    >> report_occurrences occurrences

unfoldable pub validate_global_forward_names : Config → Loaded (Unit {0})
unfolding occurrences_of report_occurrences
validate_global_forward_names config = report_occurrences (occurrences_of config.environments [])
