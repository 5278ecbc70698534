-- ===== src/Cli/Print.antt =====
-- src/cli/cli.cpp: what `plan` prints, as the text that is written to the standard output.
pub mod Definition
pub mod Agree
use kubeforward.Base.{
  ℕ, String, ◌<>◌, Bool, true, false, Option, none, some, List, [], ◌∷◌, length, to_string,
  if◌then◌else◌, empty,
}
use kubeforward.Base.Int.{ℤ, to_string_ℤ}
use kubeforward.Base.Map.{Map}
use kubeforward.Config.{
  Config, ResourceKind, PortProtocol, RestartPolicy, TargetDefaults, EnvironmentGuards,
  ResourceSelector, PortMapping, HealthCheck, EnvironmentDefinition,
}
use kubeforward.Plan.Types.{ResolvedForward, ResolvedEnvironment}

-- What a loop over a vector writes.
abbrev pub print_each {ℓ} : {A : Type ℓ} → (A → String) → List A → String
print_each print [] = ""
print_each print (x ∷ xs) = print x <> print_each print xs

abbrev pub line : String → String → String
line label value = label <> value <> "\n"

abbrev pub optional_value_or : Option String → String
optional_value_or none = "<unset>"
optional_value_or (some value) = value

abbrev pub resource_kind_to_string : ResourceKind → String
resource_kind_to_string ResourceKind.pod = "pod"
resource_kind_to_string ResourceKind.deployment = "deployment"
resource_kind_to_string ResourceKind.service = "service"
resource_kind_to_string ResourceKind.stateful_set = "statefulset"

abbrev pub port_protocol_to_string : PortProtocol → String
port_protocol_to_string PortProtocol.tcp = "tcp"
port_protocol_to_string PortProtocol.udp = "udp"

abbrev pub restart_policy_to_string : RestartPolicy → String
restart_policy_to_string RestartPolicy.fail_fast = "fail-fast"
restart_policy_to_string RestartPolicy.replace = "replace"

unfoldable pub print_string_map : Map String → String → String
print_string_map [] indent = indent <> "<none>\n"
print_string_map ((key, value) ∷ values) indent =
    print_each (λ entry. indent <> entry.0 <> "=" <> entry.1 <> "\n") ((key, value) ∷ values)

-- The body of the loops of `PrintPlanSummary`.
abbrev pub print_name_and_ports : String → List PortMapping → String
print_name_and_ports name ports =
    "    - " <> name <> " [" <> to_string (length ports) <> " port(s)]\n"

abbrev pub print_description : Option String → String
print_description none = ""
print_description (some description) = line "  Description: " description

-- `PrintPlanSummary` for a resolved environment; Definition has the other overload.
unfoldable pub print_plan_summary : EnvironmentDefinition → ResolvedEnvironment → String
print_plan_summary source_env env =
    line "Environment: " env.name
    <> print_description source_env.description
    <> "  Forwards ("
    <> to_string (length env.forwards)
    <> ")\n"
    <> print_each (λ f. print_name_and_ports f.name f.ports) env.forwards
    <> "\n"

unfoldable pub print_verbose_header : Config → String → String
unfolding print_string_map
print_verbose_header config config_path =
    line "Config file: " config_path
    <> line "Version: " (to_string_ℤ config.version)
    <> "Metadata:\n"
    <> line "  project: " config.metadata.project
    <> line "  owner: " (optional_value_or config.metadata.owner)
    <> "Defaults:\n"
    <> line "  kubeconfig: " (optional_value_or config.defaults.kubeconfig)
    <> line "  context: " (optional_value_or config.defaults.context)
    <> line "  namespace: " (optional_value_or config.defaults.namespace_name)
    <> line "  bindAddress: " (optional_value_or config.defaults.bind_address)
    <> "  labels:\n"
    <> print_string_map config.defaults.labels "    "
    <> "\n"

abbrev pub print_timeout : Option ℤ → String
print_timeout none = "<unset>"
print_timeout (some timeout_ms) = to_string_ℤ timeout_ms

abbrev pub print_exec : List String → String
print_exec [] = "          <none>\n"
print_exec (part ∷ parts) = print_each (λ p. line "          - " p) (part ∷ parts)

unfoldable pub print_health_check : Option HealthCheck → String
print_health_check none = "        <none>\n"
print_health_check (some check) =
    line "        timeoutMs: " (print_timeout check.timeout_ms)
    <> "        exec:\n"
    <> print_exec check.exec

abbrev pub print_port : PortMapping → String
print_port port =
    "        - "
    <> to_string_ℤ port.local_port
    <> " -> "
    <> to_string_ℤ port.remote_port
    <> " ("
    <> port_protocol_to_string port.protocol
    <> ")\n"
    <> line "          bindAddress: " (optional_value_or port.bind_address)

unfoldable pub print_ports : List PortMapping → String
print_ports [] = "        <none>\n"
print_ports (port ∷ ports) = print_each print_port (port ∷ ports)

-- The body of the loop of `PrintPlanVerbose`.
unfoldable pub print_resolved_forward : ResolvedForward → String
unfolding print_string_map print_health_check print_ports
print_resolved_forward f =
    line "    - name: " f.name
    <> "      resource:\n"
    <> line "        kind: " (resource_kind_to_string f.resource.kind)
    <> line "        name: " (optional_value_or f.resource.name)
    <> line "        context: " (optional_value_or f.context)
    <> line "        namespace: " (optional_value_or f.resource.namespace_override)
    <> "      annotations:\n"
    <> line "        detach: " (if f.detach then "true" else "false")
    <> line "        restartPolicy: " (restart_policy_to_string f.restart_policy)
    <> "        passthrough:\n"
    <> print_string_map f.annotations "          "
    <> "      healthCheck:\n"
    <> print_health_check f.health_check
    <> "      env:\n"
    <> print_string_map f.env "        "
    <> "      ports:\n"
    <> print_ports f.ports

-- The forwards and the empty line at the end.
unfoldable pub print_resolved_forwards : List ResolvedForward → String
unfolding print_resolved_forward
print_resolved_forwards [] = "    <none>\n\n"
print_resolved_forwards (f ∷ forwards) = print_each print_resolved_forward (f ∷ forwards) <> "\n"

-- `PrintPlanVerbose` for a resolved environment; Definition has the other overload.
unfoldable pub print_plan_verbose : EnvironmentDefinition → ResolvedEnvironment → String
unfolding print_string_map print_resolved_forwards
print_plan_verbose source_env env =
    line "Environment: " env.name
    <> line "  extends: " (optional_value_or source_env.extends)
    <> line "  description: " (optional_value_or source_env.description)
    <> "  settings:\n"
    <> line "    kubeconfig: " (optional_value_or env.settings.kubeconfig)
    <> line "    context: " (optional_value_or env.settings.context)
    <> line "    namespace: " (optional_value_or env.settings.namespace_name)
    <> line "    bindAddress: " (optional_value_or env.settings.bind_address)
    <> "    labels:\n"
    <> print_string_map env.settings.labels "      "
    <> "  guards:\n"
    <> line "    allowProduction: " (if env.guards.allow_production then "true" else "false")
    <> "  forwards:\n"
    <> print_resolved_forwards env.forwards

-- `PrintForwardNames`, whose overloads write the names alike.
unfoldable pub print_forward_names : List String → String → String
print_forward_names [] indent = indent <> "forward names:\n" <> indent <> "  <none>\n"
print_forward_names (name ∷ names) indent =
    indent <> "forward names:\n" <> print_each (λ n. indent <> "  - " <> n <> "\n") (name ∷ names)
