-- ===== src/Pods/Informer.antt =====
-- internal/pods/informer.go: the informer on the pods of the cluster. Its store of pods, the expiring
-- caches and the Kubernetes API are parameters. A duration is in nanoseconds.
pub mod Caching
pub mod Kills
pub mod Lifecycle
use kigeon.Prelude.{
  ℕ, ◌+◌, ◌-◌, ◌*◌, String, Bool, true, false, Option, none, some, List, [], ◌∷◌, if◌then◌else◌,
  eqb, contains, concat, ◌==◌, ◌≡◌, ltb,
}
use kigeon.Errors.{Error, Result, ok, err, is, not_found}
use kigeon.Kubernetes.{Event, Pod, Time}
use kigeon.Pods.Oom.{Formats, oom_killed_events}

-- `Get` and `Set` of utilcache.Expiring over its state `D`, at the time of its clock
pub record Expiring (D V : Type 0) : Type 0 where
  pub get : Time → String → D → Option V
  pub set : Time → String → V → ℕ → D → D

-- the Kubernetes API over the state `W` of what is outside: a request for a pod
pub record Client (W : Type 0) : Type 0 where
  pub get_pod : W → String → String → Result Pod × W

-- an object that the informer hands to a handler
pub data Object : Type 0 where
  pod : Pod → Object
  tombstone : Object → Object
  other : Object

-- `struct{}`
pub data Present : Type 0 where
  present : Present

-- `Informer`
pub record Informer (D N : Type 0) : Type 0 where
  pub deleted : D
  pub deleted_ttl : ℕ
  pub not_found : N
  pub enabled : Bool
  pub started : Bool

-- 5 minutes and 1 minute
abbrev pub default_deleted_pod_retention : ℕ
default_deleted_pod_retention = 5 * 60 * 1000000000

abbrev pub not_found_ttl : ℕ
not_found_ttl = 60 * 1000000000

unfoldable pub as_pod : Object → Option Pod
as_pod (pod p) = some p
as_pod (tombstone o) = none
as_pod other = none

-- `toPod`
unfoldable pub to_pod : Object → Option Pod
unfolding as_pod
to_pod (tombstone o) = as_pod o
to_pod (pod p) = as_pod (pod p)
to_pod other = as_pod other

-- `podKey`
unfoldable pub pod_key : String → String → String
pod_key namespace name = concat (namespace ∷ "/" ∷ name ∷ [])

module _ {D N : Type 0} where
  -- `newInformer`, given the empty caches and the retention of the options
  unfoldable pub new_informer : D → N → ℕ → Informer D N
  new_informer no_deleted no_missing retention = record {
    deleted = no_deleted;
    deleted_ttl = if eqb retention 0 then default_deleted_pod_retention else retention;
    not_found = no_missing;
    enabled = false;
    started = false;
  }

  -- `Enable`
  unfoldable pub enable : Informer D N → Informer D N
  enable i = record i { enabled = true }

  module _ (deleted_pods : Expiring D Pod) (missing_pods : Expiring N Present) where
    unfoldable pub keep_deleted : Informer D N → Time → Option Pod → Informer D N
    unfolding pod_key
    keep_deleted i now none = i
    keep_deleted i now (some p) = record i {
      deleted = deleted_pods.set now (pod_key p.namespace p.name) p i.deleted_ttl i.deleted;
    }

    -- the `DeleteFunc` that `Start` registers
    unfoldable pub on_delete : Informer D N → Time → Object → Informer D N
    unfolding keep_deleted to_pod
    on_delete i now o = keep_deleted i now (to_pod o)

    module _ {W : Type 0} (client : Client W) where
      -- what a call of `GetPod` gives and what it leaves
      pub record Reply : Type 0 where
        pub answer : Result Pod
        pub informer : Informer D N
        pub world : W

      -- the entry of `notFound` for a pod that the API does not know
      unfoldable pub note_missing : Informer D N → Time → String → Result Pod → Informer D N
      note_missing i now key (ok p) = i
      note_missing i now key (err e) =
          if is e not_found
          then record i { not_found = missing_pods.set now key present not_found_ttl i.not_found }
          else i

      -- the last part of `GetPod`: the request to the API
      unfoldable pub ask_client : Informer D N → Time → W → String → String → Reply
      unfolding note_missing pod_key
      ask_client i now w namespace name =
          let replied = client.get_pod w namespace name in
          record {
            answer = replied.0;
            informer = note_missing i now (pod_key namespace name) replied.0;
            world = replied.1;
          }

      -- `GetPod` from the check of `notFound` on
      unfoldable pub unless_missing :
          Informer D N → Time → W → String → String → Error → Option Present → Reply
      unfolding ask_client
      unless_missing i now w namespace name e (some present) = record {
        answer = err e;
        informer = i;
        world = w;
      }
      unless_missing i now w namespace name e none = ask_client i now w namespace name

      -- `GetPod` from the check of `deleted` on
      unfoldable pub unless_deleted :
          Informer D N → Time → W → String → String → Error → Option Pod → Reply
      unfolding unless_missing
      unless_deleted i now w namespace name e (some p) = record {
        answer = ok p;
        informer = i;
        world = w;
      }
      unless_deleted i now w namespace name e none =
          unless_missing i now w namespace name e
            (missing_pods.get now (pod_key namespace name) i.not_found)

      -- `GetPod` from the answer of the lister on
      unfoldable pub after_lister : Informer D N → Time → W → String → String → Result Pod → Reply
      unfolding unless_deleted
      after_lister i now w namespace name (ok p) = record { answer = ok p; informer = i; world = w }
      after_lister i now w namespace name (err e) =
          if is e not_found
          then unless_deleted i now w namespace name e
              (deleted_pods.get now (pod_key namespace name) i.deleted)
          else record { answer = err e; informer = i; world = w }

      -- `GetPod`, given what the lister answers
      unfoldable pub get_pod : Informer D N → Time → W → Result Pod → String → String → Reply
      unfolding after_lister
      get_pod i now w listed namespace name =
          if i.started then after_lister i now w namespace name listed else record {
            answer = (client.get_pod w namespace name).0;
            informer = i;
            world = (client.get_pod w namespace name).1;
          }

module _ (formats : Formats) where
  abbrev pub uids : List Event → List String
  uids [] = []
  uids (e ∷ l) = e.uid ∷ uids l

  -- the events whose UID is not known
  unfoldable pub unknown : List String → List Event → List Event
  unknown known [] = []
  unknown known (e ∷ l) =
      let rest = unknown known l in if contains known e.uid then rest else e ∷ rest

  -- the events of `oldPod`, if there is one
  unfoldable pub known_events : Option Pod → Time → List Event
  known_events none since = []
  known_events (some p) since = oom_killed_events formats p since

  -- `notify` of `OnOOMKilled`: the events that `fn` is called with. A kill is never before the time 0,
  -- so that `since` may stop there.
  unfoldable pub notify : Time → ℕ → Option Pod → Pod → List Event
  unfolding unknown known_events
  notify now max_age old new =
      unknown (uids (known_events old (now - max_age)))
        (oom_killed_events formats new (now - max_age))

  unfoldable pub notify_pod : Time → ℕ → Option Pod → Option Pod → List Event
  unfolding notify
  notify_pod now max_age old none = []
  notify_pod now max_age old (some new) = notify now max_age old new

  -- the `AddFunc` and the `UpdateFunc` that `OnOOMKilled` registers
  unfoldable pub on_add : Time → ℕ → Object → List Event
  unfolding notify_pod to_pod
  on_add now max_age o = notify_pod now max_age none (to_pod o)

  unfoldable pub on_update : Time → ℕ → Object → Object → List Event
  unfolding notify_pod to_pod
  on_update now max_age old new = notify_pod now max_age (to_pod old) (to_pod new)
