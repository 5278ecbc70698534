-- ===== src/Store/RoundTrip.antt =====
-- What is serialised is read back.
use kubeforward.Base.{
  ℕ, suc, ◌≡◌, refl, ◌∙◌, String, Bool, false, some, List, [], ◌∷◌, map, string_eq, to_string, ◌<>◌,
}
use kubeforward.Base.Int.{ℤ, pos}
use kubeforward.Base.Map.{lookup}
use kubeforward.Config.{PortProtocol}
use kubeforward.Session.{ManagedForwardProcess, ManagedSession, RuntimeState}
use kubeforward.Store.Nodes.{Nodes, NodesLaws}
use kubeforward.Store.Serialize.{
  port_protocol_to_string, serialize_forward, serialize_session, serialize_state,
}
use kubeforward.Store.Parse.{
  as_string, string_or, bool_or, int_or, parse_port_protocol, parse_args, parse_argv,
  parse_forward_fields, parse_forward_names, parse_forward_mapping, parse_forward, parse_forwards,
  parse_session_fields, parse_session_forwards, parse_session, parse_sessions, parse_sessions_node,
  parse_state_node,
}

module _ (N : Nodes) (laws : NodesLaws N) where
  open N use {yaml, of_text, of_list, of_fields, int_text, bool_text}

  -- The entry of a key, in a mapping that was built.
  child_found :
      (fs : List (String × yaml.Node)) (key : String) (n : yaml.Node)
      → lookup key fs ≡ some n
      → yaml.child (of_fields fs) key ≡ n
  child_found fs key n h = laws.child_fields fs key ∙ rw h

  string_or_found :
      (fs : List (String × yaml.Node)) (key otherwise text : String)
      → lookup key fs ≡ some (of_text text)
      → string_or N (of_fields fs) key otherwise ≡ some text
  unfolding string_or as_string
  string_or_found fs key otherwise text h =
      rw (child_found fs key (of_text text) h, laws.view_text text, string_or)
        (rw (child_found fs key (of_text text) h, laws.view_text text, as_string))

  int_or_found :
      (fs : List (String × yaml.Node)) (key : String) (otherwise i : ℤ)
      → lookup key fs ≡ some (of_text (int_text i))
      → int_or N (of_fields fs) key otherwise ≡ some i
  unfolding int_or
  int_or_found fs key otherwise i h =
      rw (child_found fs key (of_text (int_text i)) h, laws.view_text (int_text i), int_or)
        (laws.int_back i)

  bool_or_found :
      (fs : List (String × yaml.Node)) (key : String) (otherwise b : Bool)
      → lookup key fs ≡ some (of_text (bool_text b))
      → bool_or N (of_fields fs) key otherwise ≡ some b
  unfolding bool_or
  bool_or_found fs key otherwise b h =
      rw (child_found fs key (of_text (bool_text b)) h, laws.view_text (bool_text b), bool_or)
        (laws.bool_back b)

  parse_port_protocol_text :
      (p : PortProtocol) → parse_port_protocol N (of_text (port_protocol_to_string p)) ≡ p
  unfolding parse_port_protocol string_eq
  parse_port_protocol_text PortProtocol.tcp = rw (laws.view_text "tcp", parse_port_protocol)
  parse_port_protocol_text PortProtocol.udp = rw (laws.view_text "udp", parse_port_protocol)

  parse_args-map :
      (k : ℕ) (args : List String) (context : String)
      → parse_args N k (map of_text args) context ≡ (some args, [])
  unfolding parse_args as_string
  parse_args-map k [] context = refl
  parse_args-map k (arg ∷ args) context =
      rw (laws.view_text arg, parse_args-map (suc k) args context, parse_args, as_string)

  module _ (forward : ManagedForwardProcess) (context : String) where
    abbrev entries : List (String × yaml.Node)
    entries =
        ("environment", of_text forward.environment)
        ∷ ("name", of_text forward.forward_name)
        ∷ ("argv", of_list (map of_text forward.argv))
        ∷ ("cwd", of_text forward.cwd)
        ∷ ("logPath", of_text forward.log_path)
        ∷ ("bindAddress", of_text forward.bind_address)
        ∷ ("localPort", of_text (int_text forward.local_port))
        ∷ ("remotePort", of_text (int_text forward.remote_port))
        ∷ ("protocol", of_text (port_protocol_to_string forward.protocol))
        ∷ ("pid", of_text (int_text forward.pid))
        ∷ []

    names_back :
        parse_forward_names N (of_fields entries) ≡ some (forward.environment, forward.forward_name)
    unfolding parse_forward_names lookup string_eq
    names_back = rw (
      string_or_found entries "environment" "" forward.environment refl,
      string_or_found entries "name" "" forward.forward_name refl,
      parse_forward_names,
    )

    argv_back :
        parse_argv N (yaml.child (of_fields entries) "argv") context ≡ (some forward.argv, [])
    unfolding parse_argv lookup string_eq
    argv_back =
        rw
          (
            child_found entries "argv" (of_list (map of_text forward.argv)) refl,
            laws.view_list (map of_text forward.argv),
            parse_argv,
          )
          (parse_args-map 0 forward.argv context)

    fields_back :
        parse_forward_fields N
          (of_fields entries)
          forward.environment
          forward.forward_name
          forward.argv
        ≡ some forward
    unfolding parse_forward_fields lookup string_eq
    fields_back = rw (
      string_or_found entries "cwd" "" forward.cwd refl,
      string_or_found entries "logPath" "" forward.log_path refl,
      string_or_found entries "bindAddress" "127.0.0.1" forward.bind_address refl,
      int_or_found entries "localPort" (pos 0) forward.local_port refl,
      int_or_found entries "remotePort" (pos 0) forward.remote_port refl,
      int_or_found entries "pid" (pos 0) forward.pid refl,
      child_found entries "protocol" (of_text (port_protocol_to_string forward.protocol)) refl,
      parse_port_protocol_text forward.protocol,
      parse_forward_fields,
    )

    forward_back : parse_forward N (serialize_forward N forward) context ≡ (some forward, [])
    unfolding parse_forward parse_forward_mapping serialize_forward
    forward_back = rw (
      (laws.view_fields entries).1,
      names_back,
      argv_back,
      fields_back,
      parse_forward,
      parse_forward_mapping,
    )

  forwards_back :
      (j : ℕ) (forwards : List ManagedForwardProcess) (context : String)
      → parse_forwards N j (map (serialize_forward N) forwards) context ≡ (forwards, [])
  unfolding parse_forwards
  forwards_back j [] context = refl
  forwards_back j (forward ∷ forwards) context = rw (
    forward_back forward (context <> ".forwards[" <> to_string j <> "]"),
    forwards_back (suc j) forwards context,
    parse_forwards,
  )

  module _ (session : ManagedSession) (context : String) where
    abbrev session_entries : List (String × yaml.Node)
    session_entries =
        ("id", of_text session.id)
        ∷ ("configPath", of_text session.config_path)
        ∷ ("environment", of_text session.environment)
        ∷ ("daemon", of_text (bool_text session.daemon))
        ∷ ("startedAtUtc", of_text session.started_at_utc)
        ∷ ("forwards", of_list (map (serialize_forward N) session.forwards))
        ∷ []

    session_fields_back :
        parse_session_fields N (of_fields session_entries) ≡ some (record session { forwards = [] })
    unfolding parse_session_fields lookup string_eq
    session_fields_back = rw (
      string_or_found session_entries "id" "" session.id refl,
      string_or_found session_entries "configPath" "" session.config_path refl,
      string_or_found session_entries "environment" "" session.environment refl,
      bool_or_found session_entries "daemon" false session.daemon refl,
      string_or_found session_entries "startedAtUtc" "" session.started_at_utc refl,
      parse_session_fields,
    )

    session_forwards_back :
        parse_session_forwards N
          (record session { forwards = [] })
          (yaml.child (of_fields session_entries) "forwards")
          context
        ≡ (some session, [])
    unfolding parse_session_forwards lookup string_eq
    session_forwards_back = rw (
      child_found session_entries "forwards" (of_list (map (serialize_forward N) session.forwards))
          refl,
      laws.view_list (map (serialize_forward N) session.forwards),
      forwards_back 0 session.forwards context,
      parse_session_forwards,
    )

    session_back : parse_session N (serialize_session N session) context ≡ (some session, [])
    unfolding parse_session serialize_session
    session_back = rw (
      (laws.view_fields session_entries).1,
      session_fields_back,
      session_forwards_back,
      parse_session,
    )

  sessions_back :
      (i : ℕ) (sessions : List ManagedSession)
      → parse_sessions N i (map (serialize_session N) sessions) ≡ (sessions, [])
  unfolding parse_sessions
  sessions_back i [] = refl
  sessions_back i (session ∷ sessions) = rw (
    session_back session ("sessions[" <> to_string i <> "]"),
    sessions_back (suc i) sessions,
    parse_sessions,
  )

  -- Under the laws of the nodes that yaml-cpp builds, parsing a serialised state gives the state
  -- again, and no error.
  pub parse_state_node-serialize_state :
      (state : RuntimeState) → parse_state_node N (serialize_state N state) ≡ (state, [])
  unfolding parse_state_node parse_sessions_node serialize_state lookup string_eq
  parse_state_node-serialize_state state =
      let all : List (String × yaml.Node) =
        ("sessions", of_list (map (serialize_session N) state.sessions)) ∷ [] in
      rw (
        (laws.view_fields all).1,
        child_found all "sessions" (of_list (map (serialize_session N) state.sessions)) refl,
        laws.view_list (map (serialize_session N) state.sessions),
        sessions_back 0 state.sessions,
        parse_state_node,
        parse_sessions_node,
      )
