-- ===== src/Tests/Pods.antt =====
-- internal/pods at a pod whose container was killed, with a cache that keeps what it is told to.
use kigeon.Prelude.{
  ◌⊎◌, inl, inr, ℕ, ◌+◌, ◌≡◌, ◌↔◌, refl, String, true, Option, none, some, List, [], ◌∷◌, ◌==◌,
  if◌then◌else◌, ltb, count, format_nat,
}
use kigeon.Errors.{sentinel, not_found, err}
use kigeon.Kubernetes.{Pod, Terminated, Time}
use kigeon.Pods.Oom.{Formats, oom_killed_events, oom_killed_event, event_uid, instance_id}
use kigeon.EventQueue.Identifier.{event_identifier}
use kigeon.Pods.Oom.Identity.{event_identifier-oom_killed_event}
use kigeon.Pods.Oom.Instances.{IsInjective, some_tells, with_uid-oom_killed_events}
use kigeon.Pods.Informer.{
  Expiring, Client, Informer, pod, Present, to_pod, get_pod, new_informer, on_update, uids,
}
use kigeon.Pods.Informer.Kills.{some_pod_tells, count-on_update}
use kigeon.Pods.Informer.Caching.{Use, deletes, asks}

abbrev plain : Formats
plain = record { hash = λ id. id; rfc_3339 = λ t. format_nat t }

abbrev IsShort : String → Type 0
IsShort id = (id ≡ "one") ⊎ (id ≡ "two")

plain-IsInjective : IsInjective plain IsShort
plain-IsInjective a b ka kb h = h

abbrev healthy : Pod
healthy = record {
  name = "web-0";
  namespace = "shop";
  uid = "p1";
  node_name = "node-1";
  init_containers = [];
  containers = record { name = "app"; memory_limit = some "64Mi" } ∷ [];
  init_container_statuses = [];
  container_statuses = [];
}

abbrev kill : String → Time → Terminated
kill id t = record { reason = "OOMKilled"; container_id = id; finished_at = t }

-- a container that was killed, started again, and killed again
abbrev killed_twice : Pod
killed_twice = record healthy {
  container_statuses =
      record {
        name = "app";
        state = some (kill "two" 2000);
        last_termination_state = some (kill "one" 1000);
      }
      ∷ [];
}

-- the same pod before the second kill
abbrev killed_once : Pod
killed_once = record healthy {
  container_statuses =
      record { name = "app"; state = some (kill "one" 1000); last_termination_state = none } ∷ [];
}

both_kills_are_reported :
    uids plain (oom_killed_events plain killed_twice 500)
    ≡ "kigeon-oomkilled-two" ∷ "kigeon-oomkilled-one" ∷ []
unfolding oom_killed_events
both_kills_are_reported = refl

with_uid-oom_killed_events_example :
    count (λ e. e.uid == "kigeon-oomkilled-one") (oom_killed_events plain killed_twice 500) ≡ 1
unfolding some_tells event_uid instance_id
with_uid-oom_killed_events_example =
    with_uid-oom_killed_events plain killed_twice 500 IsShort plain-IsInjective
      "kigeon-oomkilled-one" (tt, (inr refl, inl refl, tt))

abbrev first_id : String
first_id = "one"

abbrev second_id : String
second_id = "two"

event_identifier-oom_killed_event_example :
    (event_identifier
        (oom_killed_event plain healthy "app" "spec.containers{app}" "one" (kill "one" 1000) "64Mi")
      ≡ event_identifier (
          oom_killed_event plain killed_twice "app" "spec.containers{app}" "two"
            (kill "two" 2000)
            ""))
    ↔ (first_id ≡ second_id)
event_identifier-oom_killed_event_example =
    event_identifier-oom_killed_event plain healthy killed_twice "app" "app" "spec.containers{app}"
      "spec.containers{app}" first_id second_id "64Mi" "" (kill "one" 1000) (kill "two" 2000)
      (λ h. h)

count-on_update_example :
    count
      (λ e. e.uid == "kigeon-oomkilled-two")
      (on_update plain 2500 2000 (pod killed_once) (pod killed_twice))
    ≡ 1
unfolding some_pod_tells to_pod some_tells event_uid instance_id
count-on_update_example =
    count-on_update plain IsShort plain-IsInjective "kigeon-oomkilled-two" 2500 2000
      (pod killed_once) (pod killed_twice) (tt, (inl refl, tt, tt)) (tt, (inr refl, inl refl, tt))

abbrev Entry : Type 0 → Type 0
Entry V = String → Option (V × ℕ)

abbrev alive : {V : Type 0} → Time → Option (V × ℕ) → Option V
alive now none = none
alive now (some (v, expiry)) = if ltb now expiry then some v else none

abbrev timed : (V : Type 0) → Expiring (Entry V) V
timed V = record {
  get = λ now k d. alive now (d k);
  set = λ now key v ttl d k. if key == k then some (v, now + ttl) else d k;
}

-- an API that knows no pod, and counts the requests
abbrev empty_cluster : Client ℕ
empty_cluster = record { get_pod = λ w namespace name. (err (sentinel not_found), w + 1) }

abbrev running : Informer (Entry Pod) (Entry Present)
running = record (new_informer (λ k. none) (λ k. none) 0) { started = true }

-- another pod is deleted, and a pod that nobody knows is asked for
abbrev meanwhile : List (Use (timed Pod) (timed Present) empty_cluster)
meanwhile =
    deletes 1200 (pod (record healthy { name = "db" }))
    ∷ asks 1500 (err (sentinel not_found)) "shop" "cache"
    ∷ []
