-- ===== src/Cli/Requests.antt =====
-- include/kubeforward/runtime/process_runner.h and src/cli/cli.cpp: what is asked of the process
-- runner for a forward. `std::hash` and the directory for temporary files are parameters.
use Prim.Native.Char.{code}
use kubeforward.Base.{
  ℕ, String, ◌<>◌, Bool, ◌&&◌, ◌||◌, List, if◌then◌else◌, is_empty, leb, ltb, eqb, to_string,
}
use kubeforward.Base.Int.{ℤ, to_string_ℤ}
use kubeforward.Config.{PortMapping}

-- The two ways in which a call with an `error` argument ends.
pub data Result (A : Type 0) : Type 0 where
  done : A → Result A
  failed : String → Result A

pub record StartProcessRequest : Type 0 where
  pub argv : List String
  pub cwd : String
  pub daemon : Bool
  pub log_path : String

pub record PreparedForwardLaunch : Type 0 where
  pub forward_name : String
  pub port : PortMapping
  pub request : StartProcessRequest

abbrev pub is_safe : ℕ → Bool
is_safe ch =
    (leb b'a' ch && leb ch b'z')
    || ((leb b'A' ch && leb ch b'Z')
        || ((leb b'0' ch && leb ch b'9') || (eqb ch b'-' || (eqb ch b'_' || eqb ch b'.'))))

-- One `_` for each byte of the code point in UTF-8.
abbrev pub replacement : ℕ → String
replacement ch =
    if ltb ch 128 then "_" else if ltb ch 2048 then "__" else if ltb ch 65536 then "___" else "____"

abbrev pub sanitize_bytes : String → String
sanitize_bytes String.[] = ""
sanitize_bytes (String.◌∷◌ c s) =
    let rest = sanitize_bytes s in
    if is_safe (code c) then String.◌∷◌ c rest else replacement (code c) <> rest

unfoldable pub sanitize_log_token : String → String
sanitize_log_token token = if is_empty token then "forward" else sanitize_bytes token

module _ (hash : String → ℕ) (temp_directory_path : String) where
  abbrev pub default_logs_directory_for_config : String → String
  default_logs_directory_for_config normalized_config_path =
      temp_directory_path <> "/kubeforward/logs-" <> to_string (hash normalized_config_path)

  unfoldable pub build_forward_log_path : String → String → String → ℤ → String
  unfolding sanitize_log_token
  build_forward_log_path normalized_config_path env_name forward_name local_port =
      default_logs_directory_for_config normalized_config_path
      <> "/"
      <> sanitize_log_token env_name
      <> "-"
      <> sanitize_log_token forward_name
      <> "-"
      <> to_string_ℤ local_port
      <> ".log"
