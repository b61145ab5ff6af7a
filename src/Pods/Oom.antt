-- ===== src/Pods/Oom.antt =====
-- internal/pods/oom.go: synthetic events for containers which were killed due to running out of
-- memory. The hash of an identifier and the format of a time are parameters.
pub mod Instances
pub mod Identity
use kigeon.Prelude.{
  ℕ, zero, suc, String, Bool, true, false, not, ◌&&◌, ◌||◌, Option, none, some, List, [], ◌∷◌, ◌++◌,
  ◌==◌, if◌then◌else◌, contains, concat, append, ltb, pos,
}
use kigeon.Kubernetes.{
  Event, ObjectReference, EventSource, Pod, Container, ContainerStatus, Terminated, Time,
}

abbrev pub oom_killed_reason : String
oom_killed_reason = "OOMKilled"

abbrev pub event_source_component : String
event_source_component = "kigeon"

-- `memoryLimit`
unfoldable pub memory_limit : List Container → String → String
memory_limit [] name = ""
memory_limit (c ∷ containers) name =
    let rest = memory_limit containers name in
    if c.name == name then elim c.memory_limit [ none ↦ rest | some limit ↦ limit ] else rest

-- What the file takes from elsewhere: the first eight bytes of the SHA-256 of a text in hex, and
-- `Format(time.RFC3339)` of a time in UTC.
pub record Formats : Type 0 where
  pub hash : String → String
  pub rfc_3339 : Time → String

-- the message of an event, given the container and its limit
unfoldable pub oom_message : String → String → String
oom_message container limit =
    if limit == ""
    then concat ("Container " ∷ container ∷ " was killed because it ran out of memory" ∷ [])
    else concat (
        "Container " ∷ container ∷ " was killed because it ran out of memory" ∷ " (memory limit "
        ∷ limit ∷ ")" ∷ [])

-- `terminated` is a kill for want of memory that is not older than `since`.
unfoldable pub is_oom_killed : Time → Terminated → Bool
is_oom_killed since terminated =
    terminated.reason == oom_killed_reason && not (ltb terminated.finished_at since)

-- the state of the loops: `seen` and `events`
pub record Found : Type 0 where
  pub seen : List String
  pub events : List Event

module _ (formats : Formats) where
  unfoldable pub event_uid : String → String
  event_uid id = append "kigeon-oomkilled-" (formats.hash id)

  -- `oomKilledEvent`
  unfoldable pub oom_killed_event : Pod → String → String → String → Terminated → String → Event
  unfolding oom_message event_uid
  oom_killed_event pod container field_path id terminated limit = record {
    name = concat (pod.name ∷ ".oomkilled." ∷ formats.hash id ∷ []);
    namespace = pod.namespace;
    uid = event_uid id;
    resource_version = "";
    managed_fields = [];
    involved_object = record {
      kind = "Pod";
      api_version = "v1";
      namespace = pod.namespace;
      name = pod.name;
      uid = pod.uid;
      field_path = field_path;
    };
    reason = oom_killed_reason;
    message = oom_message container limit;
    type = "Warning";
    count = pos 1;
    source = record { component = event_source_component; host = pod.node_name };
    event_time = 0;
    first_timestamp = terminated.finished_at;
    last_timestamp = terminated.finished_at;
    reporting_controller = event_source_component;
  }

  -- the identifier of the terminated container instance
  unfoldable pub instance_id : Pod → String → Terminated → String
  instance_id pod name terminated =
      if terminated.container_id == ""
      then concat (pod.uid ∷ "/" ∷ name ∷ "/" ∷ formats.rfc_3339 terminated.finished_at ∷ [])
      else terminated.container_id

  -- the loop's body for one terminated state
  unfoldable pub add_terminated :
      Pod → Time → String → String → List Container → Terminated → Found → Found
  unfolding is_oom_killed instance_id oom_killed_event memory_limit
  add_terminated pod since name field_path limits terminated found =
      let id = instance_id pod name terminated in
      if not (is_oom_killed since terminated) || contains found.seen id then found else record {
        seen = id ∷ found.seen;
        events =
            found.events
            ++ (oom_killed_event pod name field_path id terminated (memory_limit limits name) ∷ []);
      }

  unfoldable pub add_state :
      Pod → Time → String → String → List Container → Option Terminated → Found → Found
  unfolding add_terminated
  add_state pod since name field_path limits none found = found
  add_state pod since name field_path limits (some terminated) found =
      add_terminated pod since name field_path limits terminated found

  -- `add`
  unfoldable pub add : Pod → Time → ContainerStatus → String → List Container → Found → Found
  unfolding add_state
  add pod since status field_path limits found =
      add_state pod since status.name field_path limits status.last_termination_state
        (add_state pod since status.name field_path limits status.state found)

  -- the loop over the statuses of one kind of containers
  unfoldable pub add_all :
      Pod → Time → String → List Container → List ContainerStatus → Found → Found
  unfolding add
  add_all pod since kind limits [] found = found
  add_all pod since kind limits (status ∷ statuses) found =
      add_all pod since kind limits statuses
        (add pod since status (concat (kind ∷ "{" ∷ status.name ∷ "}" ∷ [])) limits found)

  -- `OOMKilledEvents`
  unfoldable pub oom_killed_events : Pod → Time → List Event
  unfolding add_all
  oom_killed_events pod since =
      (add_all pod since "spec.containers" pod.containers pod.container_statuses (
        add_all pod since "spec.initContainers" pod.init_containers pod.init_container_statuses
          (record { seen = []; events = [] }))).events
