-- ===== src/Store/Serialize.antt =====
-- src/runtime/state_store.cpp: `SerializeState`.
use kubeforward.Base.{String, [], ◌∷◌, map}
use kubeforward.Config.{PortProtocol}
use kubeforward.Session.{ManagedForwardProcess, ManagedSession, RuntimeState}
use kubeforward.Store.Nodes.{Nodes}

abbrev pub port_protocol_to_string : PortProtocol → String
port_protocol_to_string PortProtocol.tcp = "tcp"
port_protocol_to_string PortProtocol.udp = "udp"

module _ (N : Nodes) where
  open N use {yaml, of_text, of_list, of_fields, int_text, bool_text}

  -- The inner loop's body.
  unfoldable pub serialize_forward : ManagedForwardProcess → yaml.Node
  serialize_forward forward = of_fields (
      ("environment", of_text forward.environment)
      ∷ ("name", of_text forward.forward_name)
      ∷ ("argv", of_list (map of_text forward.argv))
      ∷ ("cwd", of_text forward.cwd)
      ∷ ("logPath", of_text forward.log_path)
      ∷ ("bindAddress", of_text forward.bind_address)
      ∷ ("localPort", of_text (int_text forward.local_port))
      ∷ ("remotePort", of_text (int_text forward.remote_port))
      ∷ ("protocol", of_text (port_protocol_to_string forward.protocol))
      ∷ ("pid", of_text (int_text forward.pid))
      ∷ [])

  -- The outer loop's body.
  unfoldable pub serialize_session : ManagedSession → yaml.Node
  serialize_session session = of_fields (
      ("id", of_text session.id)
      ∷ ("configPath", of_text session.config_path)
      ∷ ("environment", of_text session.environment)
      ∷ ("daemon", of_text (bool_text session.daemon))
      ∷ ("startedAtUtc", of_text session.started_at_utc)
      ∷ ("forwards", of_list (map serialize_forward session.forwards))
      ∷ [])

  unfoldable pub serialize_state : RuntimeState → yaml.Node
  unfolding serialize_session
  serialize_state state =
      of_fields (("sessions", of_list (map serialize_session state.sessions)) ∷ [])
