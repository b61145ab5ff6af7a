-- ===== src/Loki/Payload.antt =====
-- Building the push request of an event: `buildLabels`, `getEventTimestamp`, `formatEventMessage`
-- and `buildPushPayload` of internal/eventsender/loki/loki.go.
pub mod Labels
pub mod Timestamp
use kigeon.Prelude.{
  String, not, Option, none, some, List, [], ◌∷◌, Map, insert, ◌==◌, if◌then◌else◌, concat, ℤ, itoa,
}
use kigeon.Errors.{Result, ok, err}
use kigeon.Kubernetes.{Event, Time, is_zero, unix_nano}
use kigeon.Loki.Config.{Config}

-- the entry that `buildLabels` writes for a field which may be empty
unfoldable pub insert_if_set : String → String → Map String → Map String
insert_if_set k v labels = if v == "" then labels else insert k v labels

-- the labels of the event, written over `labels`
unfoldable pub event_labels : Event → Map String → Map String
unfolding insert_if_set
event_labels event labels =
    let labels = insert "namespace" event.namespace labels in
    let labels = insert "involved_object_kind" event.involved_object.kind labels in
    let labels = insert "involved_object_name" event.involved_object.name labels in
    let labels = insert "reason" event.reason labels in
    let labels = insert "type" event.type labels in
    let labels = insert_if_set "source_component" event.source.component labels in
    insert_if_set "source_host" event.source.host labels

-- the copy that `buildLabels` makes of the configured labels, entry by entry
unfoldable pub copy_labels : Map String → Map String → Map String
copy_labels [] labels = labels
copy_labels ((k, v) ∷ rest) labels = copy_labels rest (insert k v labels)

-- `buildLabels`; a nil event is `none`
unfoldable pub build_labels : Option Event → Config → Map String
unfolding copy_labels event_labels
build_labels none cfg = copy_labels cfg.stream_labels []
build_labels (some event) cfg = event_labels event (copy_labels cfg.stream_labels [])

-- `getEventTimestamp`, where `now` is `time.Now()`
unfoldable pub get_event_timestamp : Time → Option Event → Time
get_event_timestamp now none = now
get_event_timestamp now (some event) =
    if not (is_zero event.event_time)
    then event.event_time
    else if not (is_zero event.last_timestamp)
    then event.last_timestamp
    else if not (is_zero event.first_timestamp)
    then event.first_timestamp
    else now

-- the anonymous struct of `formatEventMessage`
pub record EventMessage : Type 0 where
  pub name : String
  pub namespace : String
  pub kind : String
  pub object_name : String
  pub object_namespace : String
  pub reason : String
  pub message : String
  pub type : String
  pub count : ℤ
  pub source_component : String
  pub source_host : String

unfoldable pub event_message : Event → EventMessage
event_message event = record {
  name = event.name;
  namespace = event.namespace;
  kind = event.involved_object.kind;
  object_name = event.involved_object.name;
  object_namespace = event.involved_object.namespace;
  reason = event.reason;
  message = event.message;
  type = event.type;
  count = event.count;
  source_component = event.source.component;
  source_host = event.source.host;
}

-- `formatEventMessage`; `marshal` is `json.Marshal` of the struct
unfoldable pub format_event_message : (EventMessage → Result String) → Option Event → String
unfolding event_message
format_event_message marshal none = ""
format_event_message marshal (some event) = elim (marshal (event_message event)) [
  | ok text ↦ text
  | err e ↦ concat (event.reason ∷ ": " ∷ event.message ∷ [])
]

pub record LokiStream : Type 0 where
  pub stream : Map String
  pub values : List (List String)

pub record LokiPushPayload : Type 0 where
  pub streams : List LokiStream

-- `buildPushPayload`
unfoldable pub build_push_payload :
    (EventMessage → Result String) → Time → Option Event → Config → LokiPushPayload
unfolding get_event_timestamp format_event_message
build_push_payload marshal now event cfg =
    let timestamp = get_event_timestamp now event in
    let message = if cfg.message == "" then format_event_message marshal event else cfg.message in
    record {
      streams =
          record {
            stream = cfg.stream_labels;
            values = (itoa (unix_nano timestamp) ∷ message ∷ []) ∷ [];
          }
          ∷ [];
    }
