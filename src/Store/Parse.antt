-- ===== src/Store/Parse.antt =====
-- src/runtime/state_store.cpp: `ParseStateNode`. A loop gives what it pushed and the errors that it
-- added, and its body gives nothing where the code goes on with `continue`. A read that throws
-- `BadConversion` is `none`.
use kubeforward.Base.{
  ℕ, suc, String, ◌<>◌, Bool, false, Option, none, some, List, [], ◌∷◌, ◌++◌, ◌==◌, string_eq,
  if◌then◌else◌, to_string,
}
use kubeforward.Base.Int.{ℤ, pos}
use kubeforward.Config.{PortProtocol}
use kubeforward.Session.{ManagedForwardProcess, ManagedSession, RuntimeState}
use kubeforward.Yaml.{undefined, null, scalar, sequence, mapping}
use kubeforward.Store.Nodes.{Nodes}

-- The next read after one that may throw.
infixl 5 ◌>>=◌
abbrev ◌>>=◌ {ℓ κ} : {A : Type ℓ} {B : Type κ} → Option A → (A → Option B) → Option B
none >>= f = none
some a >>= f = f a

-- One message, as `AddStateError` puts it together.
abbrev pub add_state_error : String → String → List String
add_state_error context message = (context <> ": " <> message) ∷ []

-- `continue`, or the item to push, with what the rest of the loop makes.
abbrev pub push_item {ℓ} :
    {A : Type ℓ} → Option A × List String → List A × List String → List A × List String
push_item (none, errors) (items, more) = (items, errors ++ more)
push_item (some item, errors) (items, more) = (item ∷ items, errors ++ more)

module _ (N : Nodes) where
  open N use {yaml, null_text}
  open yaml use {Node, view, child, to_int, to_bool}

  -- `as<std::string>()`
  unfoldable pub as_string : Node → Option String
  as_string node = elim (view node) [ scalar text ↦ some text | null ↦ null_text | _ ↦ none ]

  -- `node[key] ? node[key].as<std::string>() : otherwise`, and the same for `bool` and `int`.
  unfoldable pub string_or : Node → String → String → Option String
  unfolding as_string
  string_or node key otherwise = elim (view (child node key)) [
    | undefined ↦ some otherwise
    | _ ↦ as_string (child node key)
  ]

  unfoldable pub bool_or : Node → String → Bool → Option Bool
  bool_or node key otherwise = elim (view (child node key)) [
    | undefined ↦ some otherwise
    | scalar text ↦ to_bool text
    | _ ↦ none
  ]

  unfoldable pub int_or : Node → String → ℤ → Option ℤ
  int_or node key otherwise = elim (view (child node key)) [
    | undefined ↦ some otherwise
    | scalar text ↦ to_int text
    | _ ↦ none
  ]

  unfoldable pub parse_port_protocol : Node → PortProtocol
  parse_port_protocol node = elim (view node) [
    | scalar text ↦ if text == "udp" then PortProtocol.udp else PortProtocol.tcp
    | _ ↦ PortProtocol.tcp
  ]

  -- The loop over `argv` from index `k` on. After a failure `argv` is empty and the node is not, so
  -- the forward is left out.
  unfoldable pub parse_args : ℕ → List Node → String → Option (List String) × List String
  unfolding as_string
  parse_args k [] context = (some [], [])
  parse_args k (node ∷ nodes) context =
      let (rest, errors) = parse_args (suc k) nodes context in
      elim (as_string node) [
        | none ↦ (
          none,
          add_state_error (context <> ".argv[" <> to_string k <> "]") "invalid scalar type",
        )
        | some arg ↦ (elim rest [ none ↦ none | some args ↦ some (arg ∷ args) ], errors)
      ]

  unfoldable pub parse_argv : Node → String → Option (List String) × List String
  unfolding parse_args
  parse_argv node context = elim (view node) [
    | undefined ↦ (some [], [])
    | sequence nodes ↦ parse_args 0 nodes context
    | _ ↦ (none, add_state_error (context <> ".argv") "expected list")
  ]

  -- The fields that are read after `argv`.
  unfoldable pub parse_forward_fields :
      Node → String → String → List String → Option ManagedForwardProcess
  unfolding string_or int_or parse_port_protocol
  parse_forward_fields node environment forward_name argv = do
    cwd ← string_or node "cwd" ""
    log_path ← string_or node "logPath" ""
    bind_address ← string_or node "bindAddress" "127.0.0.1"
    local_port ← int_or node "localPort" (pos 0)
    remote_port ← int_or node "remotePort" (pos 0)
    pid ← int_or node "pid" (pos 0)
    some (record {
      environment = environment;
      forward_name = forward_name;
      argv = argv;
      cwd = cwd;
      log_path = log_path;
      bind_address = bind_address;
      local_port = local_port;
      remote_port = remote_port;
      protocol = parse_port_protocol (child node "protocol");
      pid = pid;
    })

  -- What is read before `argv`.
  unfoldable pub parse_forward_names : Node → Option (String × String)
  unfolding string_or
  parse_forward_names node = do
    environment ← string_or node "environment" ""
    name ← string_or node "name" ""
    some (environment, name)

  abbrev pub invalid_scalar {ℓ} : {A : Type ℓ} → String → Option A × List String
  invalid_scalar context = (none, add_state_error context "invalid scalar type")

  -- The item, or the error of a read that threw.
  abbrev pub or_invalid {ℓ} : {A : Type ℓ} → Option A → String → Option A × List String
  or_invalid (some item) context = (some item, [])
  or_invalid none context = invalid_scalar context

  -- The body of the inner `try`.
  unfoldable pub parse_forward_mapping : Node → String → Option ManagedForwardProcess × List String
  unfolding parse_forward_names parse_argv parse_forward_fields
  parse_forward_mapping node context = elim (parse_forward_names node) [
    | none ↦ invalid_scalar context
    | some (environment, name) ↦
        let (argv, errors) = parse_argv (child node "argv") context in
        elim argv [
          | none ↦ (none, errors)
          | some args ↦ or_invalid (parse_forward_fields node environment name args) context
        ]
  ]

  unfoldable pub parse_forward : Node → String → Option ManagedForwardProcess × List String
  unfolding parse_forward_mapping
  parse_forward node context = elim (view node) [
    | mapping _ ↦ parse_forward_mapping node context
    | _ ↦ (none, add_state_error context "expected mapping")
  ]

  -- The loop over `forwards` from index `j` on.
  unfoldable pub parse_forwards : ℕ → List Node → String → List ManagedForwardProcess × List String
  unfolding parse_forward
  parse_forwards j [] context = ([], [])
  parse_forwards j (node ∷ nodes) context =
      push_item (parse_forward node (context <> ".forwards[" <> to_string j <> "]"))
        (parse_forwards (suc j) nodes context)

  -- The first `try`: the session before its forwards are read.
  unfoldable pub parse_session_fields : Node → Option ManagedSession
  unfolding string_or bool_or
  parse_session_fields node = do
    id ← string_or node "id" ""
    config_path ← string_or node "configPath" ""
    environment ← string_or node "environment" ""
    daemon ← bool_or node "daemon" false
    started_at_utc ← string_or node "startedAtUtc" ""
    some (record {
      id = id;
      config_path = config_path;
      environment = environment;
      daemon = daemon;
      started_at_utc = started_at_utc;
      forwards = [];
    })

  unfoldable pub parse_session_forwards :
      ManagedSession → Node → String → Option ManagedSession × List String
  unfolding parse_forwards
  parse_session_forwards session node context = elim (view node) [
    | undefined ↦ (some session, [])
    | sequence nodes ↦
        let (forwards, errors) = parse_forwards 0 nodes context in
        (some (record session { forwards = forwards }), errors)
    | _ ↦ (none, add_state_error (context <> ".forwards") "expected list")
  ]

  unfoldable pub parse_session : Node → String → Option ManagedSession × List String
  unfolding parse_session_fields parse_session_forwards
  parse_session node context = elim (view node) [
    | mapping _ ↦ elim (parse_session_fields node) [
      | none ↦ invalid_scalar context
      | some session ↦ parse_session_forwards session (child node "forwards") context
    ]
    | _ ↦ (none, add_state_error context "expected mapping")
  ]

  -- The loop over `sessions` from index `i` on.
  unfoldable pub parse_sessions : ℕ → List Node → List ManagedSession × List String
  unfolding parse_session
  parse_sessions i [] = ([], [])
  parse_sessions i (node ∷ nodes) =
      push_item (parse_session node ("sessions[" <> to_string i <> "]"))
        (parse_sessions (suc i) nodes)

  unfoldable pub parse_sessions_node : Node → RuntimeState × List String
  unfolding parse_sessions
  parse_sessions_node node = elim (view node) [
    | undefined ↦ (record { sessions = [] }, [])
    | sequence nodes ↦
        let (sessions, errors) = parse_sessions 0 nodes in (record { sessions = sessions }, errors)
    | _ ↦ (record { sessions = [] }, add_state_error "sessions" "expected list")
  ]

  unfoldable pub parse_state_node : Node → RuntimeState × List String
  unfolding parse_sessions_node
  parse_state_node root = elim (view root) [
    | undefined ↦ (record { sessions = [] }, [])
    | mapping _ ↦ parse_sessions_node (child root "sessions")
    | _ ↦ (record { sessions = [] }, add_state_error "root" "expected mapping")
  ]
