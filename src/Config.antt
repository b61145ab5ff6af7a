-- ===== src/Config.antt =====
-- internal/config: the configuration file's data, its defaults and its validation.
pub mod Defaults
pub mod Validation
pub mod WellFormed
use kigeon.Prelude.{zero, suc, String, Bool, true, false, Option, List, Map, ℤ, pos, negsuc}

-- `metav1.Duration`, in nanoseconds
abbrev pub Duration : Type 0
Duration = ℤ

-- `resource.Quantity`, in whole bytes
abbrev pub Quantity : Type 0
Quantity = ℤ

abbrev pub is_zero : ℤ → Bool
is_zero (pos zero) = true
is_zero (pos (suc n)) = false
is_zero (negsuc n) = false

abbrev pub is_negative : ℤ → Bool
is_negative (pos n) = false
is_negative (negsuc n) = true

pub record GlobalConfig : Type 0 where
  pub data_dir : String
  pub log_level : String
  pub log_format : String
  pub metrics_bind_address : String

pub record QueueConfig : Type 0 where
  pub events_max_age : Duration
  pub events_max_bytes : Quantity
  pub kubernetes_events_max_lifetime : Duration

pub record PusherConfig : Type 0 where
  pub push_timeout : Duration

pub record PodsConfig : Type 0 where
  pub oom_killed_events : Bool
  pub deleted_pod_retention : Duration

pub record NamespaceSelectorConfig : Type 0 where
  pub match_labels : Map String

pub record FilterConfig : Type 0 where
  pub namespace_selector : Option NamespaceSelectorConfig
  pub include_non_namespaced : Bool
  pub hard_refresh_interval : Duration

-- The sender's own configuration is kept as the text of its JSON.
pub record EventSenderConfig : Type 0 where
  pub name : String
  pub type : String
  pub noop : Bool
  pub filter : Option FilterConfig
  pub config : String

pub record Config : Type 0 where
  pub global : GlobalConfig
  pub queue : QueueConfig
  pub pusher : PusherConfig
  pub pods : PodsConfig
  pub event_senders : List EventSenderConfig
