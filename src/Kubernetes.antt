-- ===== src/Kubernetes.antt =====
-- The parts of Kubernetes' API types (`k8s.io/api/core/v1`) that the program reads and writes.
-- A `Time` is in nanoseconds from the zero time of Go, January 1 of the year 1.
use kigeon.Prelude.{ℕ, String, Bool, List, Option, ℤ, eqb, sub_ℕ}

abbrev pub Time : Type 0
Time = ℕ

-- `Time.IsZero`
abbrev pub is_zero : Time → Bool
is_zero t = eqb t 0

-- nanoseconds from the zero time to January 1, 1970
abbrev pub unix_epoch : ℕ
unix_epoch = 62135596800000000000

-- `Time.UnixNano`, for the years in which it fits an int64
abbrev pub unix_nano : Time → ℤ
unix_nano t = sub_ℕ t unix_epoch

pub record ObjectReference : Type 0 where
  pub kind : String
  pub api_version : String
  pub namespace : String
  pub name : String
  pub uid : String
  pub field_path : String

pub record EventSource : Type 0 where
  pub component : String
  pub host : String

-- `corev1.Event`; a managed field is kept as its text.
pub record Event : Type 0 where
  pub name : String
  pub namespace : String
  pub uid : String
  pub resource_version : String
  pub managed_fields : List String
  pub involved_object : ObjectReference
  pub reason : String
  pub message : String
  pub type : String
  pub count : ℤ
  pub source : EventSource
  pub event_time : Time
  pub first_timestamp : Time
  pub last_timestamp : Time
  pub reporting_controller : String

-- `corev1.Container`, with the text of its memory limit if it has one.
pub record Container : Type 0 where
  pub name : String
  pub memory_limit : Option String

-- `corev1.ContainerStateTerminated`
pub record Terminated : Type 0 where
  pub reason : String
  pub container_id : String
  pub finished_at : Time

-- `corev1.ContainerStatus`, with the terminated state of `State` and `LastTerminationState`.
pub record ContainerStatus : Type 0 where
  pub name : String
  pub state : Option Terminated
  pub last_termination_state : Option Terminated

-- `corev1.Pod`
pub record Pod : Type 0 where
  pub name : String
  pub namespace : String
  pub uid : String
  pub node_name : String
  pub init_containers : List Container
  pub containers : List Container
  pub init_container_statuses : List ContainerStatus
  pub container_statuses : List ContainerStatus
