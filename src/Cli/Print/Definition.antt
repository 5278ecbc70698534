-- ===== src/Cli/Print/Definition.antt =====
-- src/cli/cli.cpp: the overloads of `PrintPlanSummary` and `PrintPlanVerbose` for a definition, in
-- which the code of the other overloads is written out again.
use kubeforward.Base.{
  String, ◌<>◌, Option, none, some, List, [], ◌∷◌, length, to_string, if◌then◌else◌,
}
use kubeforward.Base.Int.{ℤ, to_string_ℤ}
use kubeforward.Config.{PortMapping, HealthCheck, ForwardDefinition, EnvironmentDefinition}
use kubeforward.Cli.Print.{
  print_each, line, optional_value_or, resource_kind_to_string, port_protocol_to_string,
  restart_policy_to_string, print_string_map,
}

abbrev pub describe_definition : Option String → String
describe_definition none = ""
describe_definition (some description) = "  Description: " <> description <> "\n"

-- The body of the loop over the forwards.
abbrev pub print_definition_name : ForwardDefinition → String
print_definition_name f = "    - " <> f.name <> " [" <> to_string (length f.ports) <> " port(s)]\n"

unfoldable pub print_definition_summary : String → EnvironmentDefinition → String
print_definition_summary name env =
    line "Environment: " name
    <> describe_definition env.description
    <> "  Forwards ("
    <> to_string (length env.forwards)
    <> ")\n"
    <> print_each print_definition_name env.forwards
    <> "\n"

abbrev pub print_definition_timeout : Option ℤ → String
print_definition_timeout none = "<unset>"
print_definition_timeout (some timeout_ms) = to_string_ℤ timeout_ms

abbrev pub print_definition_exec : List String → String
print_definition_exec [] = "          <none>\n"
print_definition_exec (part ∷ parts) = print_each (λ p. "          - " <> p <> "\n") (part ∷ parts)

unfoldable pub print_definition_check : Option HealthCheck → String
print_definition_check none = "        <none>\n"
print_definition_check (some check) =
    line "        timeoutMs: " (print_definition_timeout check.timeout_ms)
    <> "        exec:\n"
    <> print_definition_exec check.exec

abbrev pub print_definition_port : PortMapping → String
print_definition_port port =
    "        - "
    <> to_string_ℤ port.local_port
    <> " -> "
    <> to_string_ℤ port.remote_port
    <> " ("
    <> port_protocol_to_string port.protocol
    <> ")\n"
    <> line "          bindAddress: " (optional_value_or port.bind_address)

unfoldable pub print_definition_ports : List PortMapping → String
print_definition_ports [] = "        <none>\n"
print_definition_ports (port ∷ ports) = print_each print_definition_port (port ∷ ports)

-- The body of the loop of `PrintPlanVerbose`.
unfoldable pub print_definition : ForwardDefinition → String
unfolding print_string_map print_definition_check print_definition_ports
print_definition f =
    line "    - name: " f.name
    <> "      resource:\n"
    <> line "        kind: " (resource_kind_to_string f.resource.kind)
    <> line "        name: " (optional_value_or f.resource.name)
    <> line "        context: " (optional_value_or f.resource.context)
    <> line "        namespace: " (optional_value_or f.resource.namespace_override)
    <> "      annotations:\n"
    <> line "        detach: " (if f.detach then "true" else "false")
    <> line "        restartPolicy: " (restart_policy_to_string f.restart_policy)
    <> "        passthrough:\n"
    <> print_string_map f.annotations "          "
    <> "      healthCheck:\n"
    <> print_definition_check f.health_check
    <> "      env:\n"
    <> print_string_map f.env "        "
    <> "      ports:\n"
    <> print_definition_ports f.ports

-- The forwards and the empty line at the end.
unfoldable pub print_definitions : List ForwardDefinition → String
unfolding print_definition
print_definitions [] = "    <none>\n\n"
print_definitions (f ∷ forwards) = print_each print_definition (f ∷ forwards) <> "\n"

unfoldable pub print_definition_verbose : String → EnvironmentDefinition → String
unfolding print_string_map print_definitions
print_definition_verbose name env =
    line "Environment: " name
    <> line "  extends: " (optional_value_or env.extends)
    <> line "  description: " (optional_value_or env.description)
    <> "  settings:\n"
    <> line "    kubeconfig: " (optional_value_or env.settings.kubeconfig)
    <> line "    context: " (optional_value_or env.settings.context)
    <> line "    namespace: " (optional_value_or env.settings.namespace_name)
    <> line "    bindAddress: " (optional_value_or env.settings.bind_address)
    <> "    labels:\n"
    <> print_string_map env.settings.labels "      "
    <> "  guards:\n"
    <> line "    allowProduction: " (if env.guards.allow_production then "true" else "false")
    <> "  forwards:\n"
    <> print_definitions env.forwards
