-- ===== src/Loki/Payload/Labels.antt =====
-- Which labels `buildLabels` gives, key by key.
use kigeon.Prelude.{
  ◌≡◌, refl, String, ◌&&◌, not, Option, none, some, [], ◌∷◌, arith, Map, IsMap, lookup, insert,
  lookup-insert, ◌==◌, eq_iff, if◌then◌else◌,
}
use kigeon.Kubernetes.{Event}
use kigeon.Loki.Config.{Config}
use kigeon.Loki.Payload.{insert_if_set, event_labels, copy_labels, build_labels}

-- the label that the README promises for an event under a key; `other` is what else stands there
abbrev pub label_of : Event → String → Option String → Option String
label_of event k other =
    if k == "source_host" && not (event.source.host == "")
    then some event.source.host
    else if k == "source_component" && not (event.source.component == "")
    then some event.source.component
    else if k == "type"
    then some event.type
    else if k == "reason"
    then some event.reason
    else if k == "involved_object_name"
    then some event.involved_object.name
    else if k == "involved_object_kind"
    then some event.involved_object.kind
    else if k == "namespace"
    then some event.namespace
    else other

abbrev or_else : Option String → Option String → Option String
or_else none o = o
or_else (some v) o = some v

or_else-none : (o : Option String) → or_else o none ≡ o
or_else-none none = refl
or_else-none (some v) = refl

lookup-insert_if_set :
    (k j v : String) (m : Map String)
    → lookup j (insert_if_set k v m) ≡ (if j == k && not (v == "") then some v else lookup j m)
unfolding insert_if_set
lookup-insert_if_set k j v m = ground (arith, lookup-insert k j v m, eq_iff k j, eq_iff j k)

lookup-insert_flipped :
    (k j v : String) (m : Map String)
    → lookup j (insert k v m) ≡ (if j == k then some v else lookup j m)
lookup-insert_flipped k j v m = ground (arith, lookup-insert k j v m, eq_iff k j, eq_iff j k)

lookup-event_labels :
    (event : Event) (k : String) (m : Map String)
    → lookup k (event_labels event m) ≡ label_of event k (lookup k m)
unfolding event_labels
lookup-event_labels event k m = simp (lookup-insert_if_set, lookup-insert_flipped)

lookup-copy_labels :
    (k : String) (m acc : Map String)
    → IsMap m
    → lookup k (copy_labels m acc) ≡ or_else (lookup k m) (lookup k acc)
unfolding copy_labels lookup
lookup-copy_labels k [] acc h = refl
lookup-copy_labels k ((j, v) ∷ m) acc h =
    ground (arith, lookup-copy_labels k m (insert j v acc) h.1, lookup-insert j k v acc, eq_iff j k)

-- Under each key the labels of an event hold the value of the event's field that the key names, if
-- that is one of the five fields or a source that is set, and else what is configured there.
pub lookup-build_labels :
    (event : Event) (cfg : Config) (k : String)
    → IsMap cfg.stream_labels
    → lookup k (build_labels (some event) cfg) ≡ label_of event k (lookup k cfg.stream_labels)
unfolding build_labels lookup
lookup-build_labels event cfg k h =
    rw (lookup-event_labels, lookup-copy_labels k cfg.stream_labels [] h, or_else-none)
