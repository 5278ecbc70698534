-- ===== src/Loader/Forwards.antt =====
-- src/config/loader.cpp: forwards and environments.
use kubeforward.Base.{
  ℕ, suc, String, ◌<>◌, Bool, false, ◌||◌, Option, none, some, List, [], ◌∷◌, ◌==◌, string_eq,
  if◌then◌else◌, is_empty, not,
}
use kubeforward.Base.Map.{Map, insert}
use kubeforward.Config.{
  ForwardDefinition, EnvironmentDefinition, PortMapping, RestartPolicy, no_forward,
  no_target_defaults, no_guards,
}
use kubeforward.Yaml.{Yaml, undefined, scalar, sequence, mapping}
use kubeforward.Loader.Errors.{Loaded, ◌>>=◌, ◌>>◌, return, add_error, skip, indexed}
use kubeforward.Loader.Scalars.{
  parse_restart_policy, ensure_allowed_keys, read_optional_string, read_optional_bool,
  parse_string_map,
}
use kubeforward.Loader.Parts.{
  parse_health_check, parse_target_defaults, parse_environment_guards, parse_resource_selector,
  parse_port_mapping,
}

abbrev pub context_for_forward : String → ℕ → String
context_for_forward env_name index = indexed ("environments." <> env_name <> ".forwards") index

abbrev pub or_detach : Bool → Option Bool → Bool
or_detach old (some value) = value
or_detach old none = old

unfoldable pub accept_restart : RestartPolicy → Option String → String → Loaded RestartPolicy
accept_restart old (some value) context = parse_restart_policy value context
accept_restart old none context = return old

module _ (Y : Yaml) where
  open Y use {Node, view, child, dump}

  unfoldable pub parse_forward_annotations :
      Node → String → ForwardDefinition → Loaded ForwardDefinition
  unfolding accept_restart
  parse_forward_annotations node context forward = elim (view node) [
    | undefined ↦ return forward
    | mapping _ ↦ do
      detach ← read_optional_bool Y (child node "detach") (context <> ".detach")
      restart ← read_optional_string Y (child node "restartPolicy") (context <> ".restartPolicy")
      policy ← accept_restart forward.restart_policy restart (context <> ".restartPolicy")
      health ←
          parse_health_check Y (child node "healthCheck") (context <> ".healthCheck")
            forward.health_check
      return (record forward {
        detach = or_detach forward.detach detach;
        restart_policy = policy;
        health_check = health;
      })
    | _ ↦ add_error context "expected mapping" >> return forward
  ]

  -- The annotations that the loader keeps for other consumers.
  unfoldable pub passthrough_entries : List (Node × Node) → Map String → Map String
  passthrough_entries [] annotations = annotations
  passthrough_entries ((first, second) ∷ entries) annotations =
      passthrough_entries entries (elim (view first) [
        | scalar key ↦
            if key == "detach" || key == "restartPolicy" || key == "healthCheck"
            then annotations
            else insert key (dump second) annotations
        | _ ↦ annotations
      ])

  unfoldable pub passthrough : Node → Map String
  unfolding passthrough_entries
  passthrough node = elim (view node) [ mapping entries ↦ passthrough_entries entries [] | _ ↦ [] ]

  -- The loop over `ports` from index `i` on.
  unfoldable pub parse_ports : ℕ → List Node → String → Loaded (List PortMapping)
  parse_ports i [] context = return []
  parse_ports i (node ∷ nodes) context = do
    port ← parse_port_mapping Y node (indexed (context <> ".ports") i)
    ports ← parse_ports (suc i) nodes context
    return (port ∷ ports)

  unfoldable pub parse_ports_node : Node → String → Loaded (List PortMapping)
  unfolding parse_ports
  parse_ports_node node context = elim (view node) [
    | sequence (first ∷ rest) ↦ parse_ports 0 (first ∷ rest) context
    | _ ↦ add_error (context <> ".ports") "expected non-empty list" >> return []
  ]

  unfoldable pub accept_name : Option String → String → Loaded String
  accept_name (some name) context = return name
  accept_name none context = add_error context "forward requires a name" >> return ""

  unfoldable pub parse_forward : Node → String → Loaded ForwardDefinition
  unfolding accept_name parse_ports_node parse_forward_annotations passthrough
  parse_forward node context = elim (view node) [
    | mapping _ ↦ do
      ensure_allowed_keys Y node context
          ("name" ∷ "resource" ∷ "ports" ∷ "annotations" ∷ "env" ∷ [])
      name_value ← read_optional_string Y (child node "name") (context <> ".name")
      name ← accept_name name_value (context <> ".name")
      resource ← parse_resource_selector Y (child node "resource") (context <> ".resource")
      ports ← parse_ports_node (child node "ports") context
      forward ←
          parse_forward_annotations (child node "annotations") (context <> ".annotations")
            (record no_forward { name = name; resource = resource; ports = ports })
      env ← parse_string_map Y (child node "env") (context <> ".env")
      return (record forward { env = env; annotations = passthrough (child node "annotations") })
    | _ ↦ add_error context "expected mapping" >> return no_forward
  ]

  -- The loop over `forwards` from index `i` on.
  unfoldable pub parse_forwards : ℕ → List Node → String → Loaded (List ForwardDefinition)
  parse_forwards i [] env_name = return []
  parse_forwards i (node ∷ nodes) env_name = do
    forward ← parse_forward node (context_for_forward env_name i)
    forwards ← parse_forwards (suc i) nodes env_name
    return (forward ∷ forwards)

  abbrev pub has_parent : Option String → Bool
  has_parent extends = elim extends [ some parent ↦ not (is_empty parent) | none ↦ false ]

  unfoldable pub parse_forwards_node :
      Node → String → Option String → Loaded (List ForwardDefinition)
  unfolding parse_forwards
  parse_forwards_node node env_name extends = elim (view node) [
    | undefined ↦
        (if has_parent extends
          then skip
          else add_error ("environments." <> env_name) "environment must define 'forwards'")
        >> return []
    | sequence nodes ↦ parse_forwards 0 nodes env_name
    | _ ↦ add_error ("environments." <> env_name <> ".forwards") "expected list" >> return []
  ]

  unfoldable pub parse_environment : String → Node → Loaded EnvironmentDefinition
  unfolding parse_forwards_node
  parse_environment name node = elim (view node) [
    | mapping _ ↦ do
      let context = "environments." <> name
      ensure_allowed_keys Y node context (
          "extends" ∷ "description" ∷ "kubeconfig" ∷ "context" ∷ "namespace" ∷ "bindAddress"
          ∷ "labels" ∷ "guards" ∷ "forwards" ∷ [])
      extends ← read_optional_string Y (child node "extends") (context <> ".extends")
      description ← read_optional_string Y (child node "description") (context <> ".description")
      settings ← parse_target_defaults Y node context false
      guards ← parse_environment_guards Y (child node "guards") (context <> ".guards")
      forwards ← parse_forwards_node (child node "forwards") name extends
      return (record {
        name = name;
        extends = extends;
        description = description;
        settings = settings;
        guards = guards;
        forwards = forwards;
      })
    | _ ↦
        add_error ("environments." <> name) "expected mapping"
        >> return (record {
          name = name;
          extends = none;
          description = none;
          settings = no_target_defaults;
          guards = no_guards;
          forwards = [];
        })
  ]
