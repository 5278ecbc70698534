-- ===== src/Cli/Launch.antt =====
-- src/cli/cli.cpp: the launches of an environment, and those that restore a session.
pub mod Laws
pub mod Ports
use kubeforward.Base.{
  ℕ, String, ◌<>◌, Bool, true, false, Option, none, some, List, [], ◌∷◌, ◌++◌, if◌then◌else◌,
  is_empty, empty,
}
use kubeforward.Base.Int.{ℤ, to_string_ℤ}
use kubeforward.Config.{PortMapping, PortProtocol, ResourceKind}
use kubeforward.Plan.Types.{ResolvedEnvironment, ResolvedForward}
use kubeforward.Session.{ManagedForwardProcess, ManagedSession}
use kubeforward.Cli.Requests.{
  Result, done, failed, StartProcessRequest, PreparedForwardLaunch, build_forward_log_path,
}

abbrev pub resource_kind_target_prefix : ResourceKind → String
resource_kind_target_prefix ResourceKind.pod = "pod"
resource_kind_target_prefix ResourceKind.deployment = "deployment"
resource_kind_target_prefix ResourceKind.service = "service"
resource_kind_target_prefix ResourceKind.stateful_set = "statefulset"

-- `if (value.has_value() && !value->empty())`: the flag and its value.
abbrev pub flag : String → Option String → List String
flag name none = []
flag name (some value) = if is_empty value then [] else name ∷ value ∷ []

abbrev pub kubectl_arguments :
    ResolvedEnvironment → ResolvedForward → PortMapping → String → List String
kubectl_arguments env forward port name =
    ("kubectl"
      ∷ "port-forward"
      ∷ (resource_kind_target_prefix forward.resource.kind <> "/" <> name)
      ∷ (to_string_ℤ port.local_port <> ":" <> to_string_ℤ port.remote_port)
      ∷ "--namespace"
      ∷ forward.namespace_name
      ∷ [])
    ++ (flag "--context" forward.context
        ++ (flag "--kubeconfig" env.settings.kubeconfig ++ flag "--address" port.bind_address))

abbrev pub require_name : Option String → Option String
require_name none = none
require_name (some name) = if is_empty name then none else some name

unfoldable pub build_kubectl_port_forward_argv :
    ResolvedEnvironment → ResolvedForward → PortMapping → Result (List String)
build_kubectl_port_forward_argv env forward port = elim port.protocol [
  | PortProtocol.udp ↦
      failed "unsupported protocol for kubectl port-forward (only tcp is supported)"
  | PortProtocol.tcp ↦ elim (require_name forward.resource.name) [
    | none ↦ failed "resource.name is required for kubectl port-forward"
    | some name ↦ done (kubectl_arguments env forward port name)
  ]
]

-- `launches.push_back`, before what the rest of a loop makes.
abbrev pub push : {A : Type 0} → A → Result (List A) → Result (List A)
push launch (done launches) = done (launch ∷ launches)
push launch (failed error) = failed error

module _ (hash : String → ℕ) (temp_directory_path : String) where
  module _ (cwd normalized_config_path : String) (resolved_env : ResolvedEnvironment)
      (daemon : Bool) where
    abbrev pub prepared : ResolvedForward → PortMapping → List String → PreparedForwardLaunch
    prepared forward port argv = record {
      forward_name = forward.name;
      port = port;
      request = record {
        argv = argv;
        cwd = cwd;
        daemon = daemon;
        log_path =
            build_forward_log_path hash temp_directory_path normalized_config_path resolved_env.name
              forward.name port.local_port;
      };
    }

    -- The inner loop, and then `rest`, what the outer loop makes of the forwards that follow.
    unfoldable pub prepare_ports :
        ResolvedForward
        → List PortMapping
        → Result (List PreparedForwardLaunch)
        → Result (List PreparedForwardLaunch)
    prepare_ports forward [] rest = rest
    prepare_ports forward (port ∷ ports) rest =
        let others = prepare_ports forward ports rest in
        elim (build_kubectl_port_forward_argv resolved_env forward port) [
          | failed error ↦ failed ("invalid forward '" <> forward.name <> "': " <> error)
          | done argv ↦ push (prepared forward port argv) others
        ]

    unfoldable pub prepare_forwards : List ResolvedForward → Result (List PreparedForwardLaunch)
    unfolding prepare_ports
    prepare_forwards [] = done []
    prepare_forwards (forward ∷ forwards) =
        prepare_ports forward forward.ports (prepare_forwards forwards)

  -- `current_path` is the directory, or the message of the error.
  unfoldable pub build_prepared_launches :
      Result String → String → ResolvedEnvironment → Bool → Result (List PreparedForwardLaunch)
  unfolding prepare_forwards
  build_prepared_launches current_path normalized_config_path resolved_env daemon =
      elim current_path [
        | failed message ↦ failed ("failed to resolve current working directory: " <> message)
        | done cwd ↦
            prepare_forwards cwd normalized_config_path resolved_env daemon resolved_env.forwards
      ]

abbrev pub restored_launch : ManagedSession → ManagedForwardProcess → PreparedForwardLaunch
restored_launch session forward = record {
  forward_name = forward.forward_name;
  port = record {
    local_port = forward.local_port;
    remote_port = forward.remote_port;
    bind_address = some forward.bind_address;
    protocol = forward.protocol;
  };
  request = record {
    argv = forward.argv;
    cwd = forward.cwd;
    daemon = session.daemon;
    log_path = forward.log_path;
  };
}

unfoldable pub restore_launches :
    ManagedSession → List ManagedForwardProcess → Result (List PreparedForwardLaunch)
restore_launches session [] = done []
restore_launches session (forward ∷ forwards) =
    let rest = restore_launches session forwards in
    if empty forward.argv
    then failed (
        "session '" <> session.id <> "' cannot be restored because forward '"
        <> forward.forward_name <> "' has no stored argv")
    else push (restored_launch session forward) rest

unfoldable pub build_prepared_launches_from_session :
    ManagedSession → Result (List PreparedForwardLaunch)
unfolding restore_launches
build_prepared_launches_from_session session = restore_launches session session.forwards

-- `none` stands for `true`.
unfoldable pub validate_forwards_support_rollback :
    String → List ManagedForwardProcess → Option String
validate_forwards_support_rollback id [] = none
validate_forwards_support_rollback id (forward ∷ forwards) =
    let rest = validate_forwards_support_rollback id forwards in
    if empty forward.argv
    then some (
        "existing session '" <> id <> "' cannot be replaced safely because forward '"
        <> forward.forward_name
        <> "' was created by an older runtime state format without restart metadata; run 'down' first")
    else rest

unfoldable pub validate_session_supports_rollback : ManagedSession → Option String
unfolding validate_forwards_support_rollback
validate_session_supports_rollback session =
    validate_forwards_support_rollback session.id session.forwards

unfoldable pub validate_sessions_support_rollback : List ManagedSession → Option String
unfolding validate_session_supports_rollback
validate_sessions_support_rollback [] = none
validate_sessions_support_rollback (session ∷ sessions) =
    let rest = validate_sessions_support_rollback sessions in
    elim (validate_session_supports_rollback session) [ some error ↦ some error | none ↦ rest ]
