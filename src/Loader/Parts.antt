-- ===== src/Loader/Parts.antt =====
-- src/config/loader.cpp: the parts of a forward and of an environment.
use kubeforward.Base.{
  ℕ, suc, String, ◌<>◌, Bool, true, false, ◌&&◌, not, Option, none, some, List, [], ◌∷◌,
  if◌then◌else◌, is_empty, eqb,
}
use kubeforward.Base.Int.{ℤ, pos, leb_ℤ}
use kubeforward.Config.{
  TargetDefaults, EnvironmentGuards, ResourceKind, ResourceSelector, PortMapping, PortProtocol,
  HealthCheck, no_target_defaults, no_guards, no_resource, no_port,
}
use kubeforward.Yaml.{Yaml, undefined, scalar, sequence, mapping}
use kubeforward.Loader.Errors.{Loaded, ◌>>=◌, ◌>>◌, return, add_error, skip, indexed}
use kubeforward.Loader.Ip.{is_ip_literal, codes}
use kubeforward.Loader.Scalars.{
  is_port_valid, parse_resource_kind, parse_protocol, ensure_allowed_keys, read_optional_string,
  read_optional_bool, read_optional_int, parse_string_map,
}

-- `value.find('/') != npos`
abbrev pub has_slash : List ℕ → Bool
has_slash [] = false
has_slash (c ∷ cs) = if eqb c b'/' then true else has_slash cs

-- The check of a `bindAddress` that was read: the address, if it is accepted.
unfoldable pub accept_bind_address : Option String → String → Loaded (Option String)
accept_bind_address none context = return none
accept_bind_address (some bind) context =
    if not (is_empty bind) && not (is_ip_literal bind)
    then (add_error context "must be an IPv4 literal" >> return none)
    else return (some bind)

-- A port that was read, or the error that it is missing.
unfoldable pub accept_port : Option ℤ → String → String → Loaded ℤ
accept_port none context missing = add_error context missing >> return (pos 0)
accept_port (some port) context missing =
    if is_port_valid port
    then return port
    else (add_error context "port must be between 1 and 65535" >> return port)

module _ (Y : Yaml) where
  open Y use {Node, view, child}

  -- The loop of `ParseHealthCheck` over `exec` from index `i` on.
  unfoldable pub parse_exec : ℕ → List Node → String → Loaded (List String)
  parse_exec i [] context = return []
  parse_exec i (arg ∷ args) context = elim (view arg) [
    | scalar value ↦
        (if is_empty value
          then add_error (indexed (context <> ".exec") i) "command arguments cannot be empty"
          else skip)
        >> (parse_exec (suc i) args context >>= λ rest. return (value ∷ rest))
    | _ ↦
        add_error (indexed (context <> ".exec") i) "expected string"
        >> parse_exec (suc i) args context
  ]

  unfoldable pub parse_exec_node : Node → String → Loaded (List String)
  unfolding parse_exec
  parse_exec_node node context = elim (view node) [
    | sequence (arg ∷ args) ↦ parse_exec 0 (arg ∷ args) context
    | _ ↦ add_error (context <> ".exec") "expected non-empty list" >> return []
  ]

  unfoldable pub accept_timeout : Option ℤ → String → Loaded (Option ℤ)
  accept_timeout none context = return none
  accept_timeout (some timeout) context =
      if leb_ℤ timeout (pos 0)
      then (add_error context "must be positive" >> return none)
      else return (some timeout)

  -- What follows the reading of `exec`: with no command, `out` is left as it was.
  unfoldable pub finish_health_check :
      List String → Node → String → Option HealthCheck → Loaded (Option HealthCheck)
  unfolding accept_timeout
  finish_health_check [] node context out = return out
  finish_health_check (entrypoint ∷ args) node context out = do
    (if has_slash (codes entrypoint)
        then skip
        else add_error (context <> ".exec[0]")
            "command must be absolute or repo-relative (contains '/')")
    timeout ← read_optional_int Y (child node "timeoutMs") (context <> ".timeoutMs")
    timeout_ms ← accept_timeout timeout (context <> ".timeoutMs")
    return (some (record { exec = entrypoint ∷ args; timeout_ms = timeout_ms }))

  unfoldable pub parse_health_check :
      Node → String → Option HealthCheck → Loaded (Option HealthCheck)
  unfolding parse_exec_node finish_health_check
  parse_health_check node context out = elim (view node) [
    | undefined ↦ return none
    | mapping _ ↦
        ensure_allowed_keys Y node context ("exec" ∷ "timeoutMs" ∷ [])
        >> (parse_exec_node (child node "exec") context >>= λ exec.
            finish_health_check exec node context out)
    | _ ↦ add_error context "expected mapping for healthCheck" >> return none
  ]

  unfoldable pub parse_target_defaults : Node → String → Bool → Loaded TargetDefaults
  unfolding accept_bind_address
  parse_target_defaults node context enforce_key_whitelist = elim (view node) [
    | undefined ↦ return no_target_defaults
    | mapping _ ↦ do
      (if enforce_key_whitelist
          then ensure_allowed_keys Y node context
              ("kubeconfig" ∷ "context" ∷ "namespace" ∷ "bindAddress" ∷ "labels" ∷ [])
          else skip)
      kube ← read_optional_string Y (child node "kubeconfig") (context <> ".kubeconfig")
      ctx ← read_optional_string Y (child node "context") (context <> ".context")
      ns ← read_optional_string Y (child node "namespace") (context <> ".namespace")
      bind ← read_optional_string Y (child node "bindAddress") (context <> ".bindAddress")
      bind_address ← accept_bind_address bind (context <> ".bindAddress")
      labels ← parse_string_map Y (child node "labels") (context <> ".labels")
      return (record {
        kubeconfig = kube;
        context = ctx;
        namespace_name = ns;
        bind_address = bind_address;
        labels = labels;
      })
    | _ ↦ add_error context "expected mapping" >> return no_target_defaults
  ]

  unfoldable pub parse_environment_guards : Node → String → Loaded EnvironmentGuards
  parse_environment_guards node context = elim (view node) [
    | undefined ↦ return no_guards
    | mapping _ ↦
        ensure_allowed_keys Y node context ("allowProduction" ∷ [])
        >> (read_optional_bool Y (child node "allowProduction") (context <> ".allowProduction")
            >>= λ allow.
                return
                  (record { allow_production = elim allow [ some value ↦ value | none ↦ false ] }))
    | _ ↦ add_error context "expected mapping" >> return no_guards
  ]

  unfoldable pub accept_kind : Option String → String → Loaded ResourceKind
  accept_kind (some value) context = parse_resource_kind value context
  accept_kind none context =
      add_error context "resource kind is required" >> return ResourceKind.pod

  unfoldable pub parse_resource_selector : Node → String → Loaded ResourceSelector
  unfolding accept_kind
  parse_resource_selector node context = elim (view node) [
    | undefined ↦ add_error context "resource block missing" >> return no_resource
    | mapping _ ↦ do
      ensure_allowed_keys Y node context ("kind" ∷ "name" ∷ "context" ∷ "namespace" ∷ [])
      kind_value ← read_optional_string Y (child node "kind") (context <> ".kind")
      kind ← accept_kind kind_value (context <> ".kind")
      name ← read_optional_string Y (child node "name") (context <> ".name")
      elim name [
        | some _ ↦ skip
        | none ↦ add_error (context <> ".name") "resource name is required"
      ]
      ctx ← read_optional_string Y (child node "context") (context <> ".context")
      ns ← read_optional_string Y (child node "namespace") (context <> ".namespace")
      return (record { kind = kind; name = name; context = ctx; namespace_override = ns })
    | _ ↦ add_error context "expected mapping for resource" >> return no_resource
  ]

  unfoldable pub accept_protocol : Option String → String → Loaded PortProtocol
  accept_protocol (some value) context = parse_protocol value context
  accept_protocol none context = return PortProtocol.tcp

  unfoldable pub parse_port_mapping : Node → String → Loaded PortMapping
  unfolding accept_port accept_bind_address accept_protocol
  parse_port_mapping node context = elim (view node) [
    | mapping _ ↦ do
      ensure_allowed_keys Y node context ("local" ∷ "remote" ∷ "bindAddress" ∷ "protocol" ∷ [])
      local ← read_optional_int Y (child node "local") (context <> ".local")
      local_port ← accept_port local (context <> ".local") "local port is required"
      remote ← read_optional_int Y (child node "remote") (context <> ".remote")
      remote_port ← accept_port remote (context <> ".remote") "remote port is required"
      bind ← read_optional_string Y (child node "bindAddress") (context <> ".bindAddress")
      bind_address ← accept_bind_address bind (context <> ".bindAddress")
      protocol_value ← read_optional_string Y (child node "protocol") (context <> ".protocol")
      protocol ← accept_protocol protocol_value (context <> ".protocol")
      return (record {
        local_port = local_port;
        remote_port = remote_port;
        bind_address = bind_address;
        protocol = protocol;
      })
    | _ ↦ add_error context "expected mapping" >> return no_port
  ]
