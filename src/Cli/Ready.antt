-- ===== src/Cli/Ready.antt =====
-- src/cli/cli.cpp: whether a started process listens on its port. What the environment and the file
-- system say, `strtol`, `waitpid`, what a command prints and sleeping are parameters.
pub mod Checks
pub mod Bounds
pub mod Quote
use Prim.Native.Char.{code}
use kubeforward.Base.{
  ℕ, zero, suc, ◌+◌, String, ◌<>◌, Bool, true, false, not, ◌&&◌, Option, none, some, List, [], ◌∷◌,
  if◌then◌else◌, is_empty, leb, eqb, to_string,
}
use kubeforward.Base.Int.{ℤ, pos, negsuc, leb_ℤ, to_string_ℤ}
use kubeforward.Session.{ManagedForwardProcess}

-- `strtol`: `none` if `errno` is set, nothing is converted or text is left.
unfoldable pub startup_timeout_ms : Option String → (String → Option ℤ) → ℕ
startup_timeout_ms value strtol = elim value [
  | none ↦ 10000
  | some text ↦ if is_empty text then 10000 else elim (strtol text) [
    | none ↦ 10000
    | some (negsuc n) ↦ 10000
    | some (pos parsed) ↦ if leb 100 parsed && leb parsed 600000 then parsed else 10000
  ]
]

-- The loop of `ShellQuote`.
abbrev pub quote_chars : String → String
quote_chars String.[] = ""
quote_chars (String.◌∷◌ ch value) =
    let rest = quote_chars value in
    if eqb (code ch) b'\''
    then String.◌∷◌ "'" (String.◌∷◌ "\\" (String.◌∷◌ "'" (String.◌∷◌ "'" rest)))
    else String.◌∷◌ ch rest

unfoldable pub shell_quote : String → String
shell_quote value = String.◌∷◌ "'" (quote_chars value <> "'")

-- A status of `waitpid`, as the macros take it apart.
pub data WaitStatus : Type 0 where
  exited signaled : ℕ → WaitStatus
  unknown_status : WaitStatus

unfoldable pub describe_wait_status : WaitStatus → String
describe_wait_status (exited code) = "exit code " <> to_string code
describe_wait_status (signaled number) = "signal " <> to_string number
describe_wait_status unknown_status = "unknown status"

pub record Probing : Type 1 where
  pub State : Type 0
  -- `access(path, X_OK) == 0`
  pub access : String → Bool
  -- The entries of `PATH`, if it is set.
  pub path_entries : Option (List String)
  -- A path `/` a name, whether a path is absolute, and whether a text has a `/`.
  pub join : String → String → String
  pub is_absolute : String → Bool
  pub has_path_separator : String → Bool
  -- What a command prints; `none` if it cannot run or its status is not 0.
  pub popen : String → State → Option String × State
  -- `waitpid(pid, &status, WNOHANG)`: the status, if it gives the pid back.
  pub waitpid : ℤ → State → Option WaitStatus × State
  pub sleep_for : ℕ → State → State

module _ (S : Probing) where
  open S use {State, access, path_entries, join, is_absolute, has_path_separator}

  -- The loop over `PATH`.
  unfoldable pub find_in_path : String → List String → Option String
  find_in_path executable [] = none
  find_in_path executable (entry ∷ entries) =
      let rest = find_in_path executable entries in
      if access (join entry executable) then some (join entry executable) else rest

  unfoldable pub resolve_executable_path : String → Option String
  unfolding find_in_path
  resolve_executable_path executable =
      if is_empty executable
      then none
      else if has_path_separator executable
      then (if access executable then some executable else none)
      else if is_absolute executable
      then (if access executable then some executable else none)
      else elim path_entries [ none ↦ none | some entries ↦ find_in_path executable entries ]

  -- The error, if there is one.
  unfoldable pub validate_kubectl_executable : String → Option String
  unfolding resolve_executable_path
  validate_kubectl_executable kubectl = elim (resolve_executable_path kubectl) [
    | some path ↦ none
    | none ↦ some ("kubectl executable is not available: " <> kubectl)
  ]

  unfoldable pub command_produces_output : String → State → Bool × State
  command_produces_output command st =
      let (output, st') = S.popen command st in
      (elim output [ none ↦ false | some text ↦ not (is_empty text) ], st')

  -- One of the two commands: nothing is run if the tool is not there.
  abbrev pub probe_with : Option String → (String → String) → State → Bool × State
  probe_with none command st = (false, st)
  probe_with (some tool) command st = command_produces_output (command (shell_quote tool)) st

  -- Whether the port is ready.
  unfoldable pub probe_tcp_port_listening_for_readiness : String → ℤ → State → Bool × State
  unfolding resolve_executable_path command_produces_output shell_quote
  probe_tcp_port_listening_for_readiness bind_address port st =
      let (by_lsof, st') =
        probe_with (resolve_executable_path "lsof")
          (λ tool.
            tool
            <> " -nP -iTCP@"
            <> shell_quote bind_address
            <> ":"
            <> to_string_ℤ port
            <> " -sTCP:LISTEN -t 2>/dev/null")
          st in
      if by_lsof
      then (true, st')
      else probe_with (resolve_executable_path "ss")
          (λ tool. tool <> " -H -ltn sport = :" <> to_string_ℤ port <> " 2>/dev/null") st'

  unfoldable pub poll_process_exit_status : ℤ → State → Option WaitStatus × State
  poll_process_exit_status pid st = if leb_ℤ pid (pos 0) then (none, st) else S.waitpid pid st

  module _ (timeout_ms : ℕ) (process : ManagedForwardProcess) where
    abbrev pub exited_early : WaitStatus → String
    exited_early status =
        "forward '"
        <> process.forward_name
        <> "' exited before becoming ready with "
        <> describe_wait_status status

    abbrev pub timed_out : String
    timed_out =
        "forward '"
        <> process.forward_name
        <> "' did not open "
        <> process.bind_address
        <> ":"
        <> to_string_ℤ process.local_port
        <> " within "
        <> to_string timeout_ms
        <> "ms"

    -- One check: `none` is to wait on, and otherwise the error, if there is one.
    unfoldable pub check_ready : State → Option (Option String) × State
    unfolding poll_process_exit_status probe_tcp_port_listening_for_readiness describe_wait_status
    check_ready st =
        let (status, st') = poll_process_exit_status process.pid st in
        elim status [
          | some exit_status ↦ (some (some (exited_early exit_status)), st')
          | none ↦
              let (ready, st'') =
                probe_tcp_port_listening_for_readiness process.bind_address process.local_port
                  st' in
              (if ready then some none else none, st'')
        ]

    -- The loop, from `waited_ms` on; `none` is out of fuel.
    unfoldable pub wait_ready_from : ℕ → ℕ → State → Option (Option String) × State
    wait_ready_from zero waited_ms st = (none, st)
    wait_ready_from (suc fuel) waited_ms st =
        let (outcome, st') = check_ready st in
        let rest = wait_ready_from fuel (waited_ms + 100) (S.sleep_for 100 st') in
        if leb waited_ms timeout_ms
        then elim outcome [ some ended ↦ (some ended, st') | none ↦ rest ]
        else (some (some timed_out), st)

    unfoldable pub wait_for_forward_ready : ℕ → State → Option (Option String) × State
    unfolding wait_ready_from
    wait_for_forward_ready fuel st = wait_ready_from fuel 0 st
