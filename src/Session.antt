-- ===== src/Session.antt =====
-- include/kubeforward/runtime/state_store.h: the state that `up` writes and `down` reads.
use kubeforward.Base.{String, Bool, List}
use kubeforward.Base.Int.{ℤ}
use kubeforward.Config.{PortProtocol}

pub record ManagedForwardProcess : Type 0 where
  pub environment : String
  pub forward_name : String
  pub argv : List String
  pub cwd : String
  pub log_path : String
  pub bind_address : String
  pub local_port : ℤ
  pub remote_port : ℤ
  pub protocol : PortProtocol
  pub pid : ℤ

pub record ManagedSession : Type 0 where
  pub id : String
  pub config_path : String
  pub environment : String
  pub daemon : Bool
  pub started_at_utc : String
  pub forwards : List ManagedForwardProcess

pub record RuntimeState : Type 0 where
  pub sessions : List ManagedSession
