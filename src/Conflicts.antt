-- ===== src/Conflicts.antt =====
-- src/runtime/session_conflicts.cpp: no running session may already claim a local port of the
-- environment. The outcome of `kill(pid, 0)` is a parameter.
pub mod Exact
use native.Mathlib.Decide.{ℕ_discrete}
use kubeforward.Base.{
  String, ◌<>◌, Bool, true, false, ◌&&◌, Option, none, some, List, [], ◌∷◌, ◌++◌, Eq, ◌==◌,
  contains, string_eq, is_empty, if◌then◌else◌,
}
use kubeforward.Base.Int.{ℤ, pos, leb_ℤ, int_eq, ℤ-discrete, to_string_ℤ}
use kubeforward.Config.{PortMapping, PortProtocol}
use kubeforward.Plan.Types.{ResolvedEnvironment, ResolvedForward}
use kubeforward.Session.{ManagedForwardProcess, ManagedSession, RuntimeState}

-- What `kill(pid, 0)` answers: 0, or -1 with `errno` `EPERM`, or with another `errno`.
pub data Probe : Type 0 where
  delivered not_permitted failed : Probe

abbrev pub or_loopback : String → String
or_loopback address = if is_empty address then "127.0.0.1" else address

-- The two overloads of `ResolveBindAddress`.
abbrev pub port_bind_address : PortMapping → String
port_bind_address port = elim port.bind_address [
  | some address ↦ or_loopback address
  | none ↦ "127.0.0.1"
]

abbrev pub process_bind_address : ManagedForwardProcess → String
process_bind_address process = or_loopback process.bind_address

abbrev pub port_protocol_to_string : PortProtocol → String
port_protocol_to_string PortProtocol.tcp = "tcp"
port_protocol_to_string PortProtocol.udp = "udp"

pub record PortClaimKey : Type 0 where
  pub address : String
  pub port : ℤ
  pub protocol : PortProtocol

PortClaimKey-discrete : Discrete PortClaimKey
PortClaimKey-discrete = hlevel (ℕ_discrete, string_eq.dec)

instance unfoldable pub claim_eq : Eq PortClaimKey
unfolding PortClaimKey-discrete
claim_eq = record { dec = PortClaimKey-discrete }

-- The two overloads of `PortClaimFor`.
abbrev pub port_claim : PortMapping → PortClaimKey
port_claim port = record {
  address = port_bind_address port;
  port = port.local_port;
  protocol = port.protocol;
}

abbrev pub process_claim : ManagedForwardProcess → PortClaimKey
process_claim process = record {
  address = process_bind_address process;
  port = process.local_port;
  protocol = process.protocol;
}

abbrev pub port_claims : List PortMapping → List PortClaimKey
port_claims [] = []
port_claims (port ∷ ports) = port_claim port ∷ port_claims ports

-- The set `target_ports`.
abbrev pub target_ports : List ResolvedForward → List PortClaimKey
target_ports [] = []
target_ports (forward ∷ forwards) = port_claims forward.ports ++ target_ports forwards

abbrev pub conflict_message : ManagedSession → ManagedForwardProcess → String
conflict_message session process =
    "local "
    <> port_protocol_to_string process.protocol
    <> " port "
    <> to_string_ℤ process.local_port
    <> " on "
    <> process_bind_address process
    <> " is already claimed by running session '"
    <> session.id
    <> "'"

module _ (kill : ℤ → Probe) where
  unfoldable pub is_pid_alive : ℤ → Bool
  is_pid_alive pid = if leb_ℤ pid (pos 0) then false else elim (kill pid) [
    | Probe.delivered ↦ true
    | Probe.not_permitted ↦ true
    | Probe.failed ↦ false
  ]

  -- The inner loop: the error of the first process that holds a claimed port.
  unfoldable pub check_processes :
      List PortClaimKey → ManagedSession → List ManagedForwardProcess → Option String
  unfolding is_pid_alive
  check_processes ports session [] = none
  check_processes ports session (process ∷ processes) =
      let rest = check_processes ports session processes in
      if contains ports (process_claim process)
      then if is_pid_alive process.pid then some (conflict_message session process) else rest
      else rest

  unfoldable pub check_sessions :
      String → String → List PortClaimKey → List ManagedSession → Option String
  unfolding check_processes
  check_sessions config_path env_name ports [] = none
  check_sessions config_path env_name ports (session ∷ sessions) =
      let rest = check_sessions config_path env_name ports sessions in
      if session.config_path == config_path && session.environment == env_name
      then rest
      else elim (check_processes ports session session.forwards) [
        | some error ↦ some error
        | none ↦ rest
      ]

  -- `none` stands for `true` with the error cleared, `some error` for `false` with that error.
  unfoldable pub check_runtime_session_port_conflicts :
      RuntimeState → String → ResolvedEnvironment → Option String
  unfolding check_sessions
  check_runtime_session_port_conflicts state normalized_config_path target_env =
      check_sessions normalized_config_path target_env.name (target_ports target_env.forwards)
        state.sessions
