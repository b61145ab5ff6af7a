-- ===== src/Pods/Informer/Caching.antt =====
-- What the caches of `GetPod` of internal/pods/informer.go are for.
use kigeon.Prelude.{
  ℕ, ◌+◌, ◌≡◌, refl, String, true, false, Option, none, some, List, [], ◌∷◌, ◌==◌, eq_refl,
  if◌then◌else◌, ltb,
}
use kigeon.Errors.{Error, Result, err, is, not_found}
use kigeon.Kubernetes.{Pod, Time}
use kigeon.Pods.Informer.{
  Expiring, Client, Informer, Object, Present, to_pod, pod_key, on_delete, get_pod, not_found_ttl,
}

-- `Get` gives what was last set under a key, up to its expiry.
pub record Expires {D V : Type 0} (cache : Expiring D V) : Type 0 where
  pub get-set :
      (later now : Time) (k key : String) (v : V) (ttl : ℕ) (d : D)
      → cache.get later k (cache.set now key v ttl d) ≡ (
          if key == k
          then (if ltb later (now + ttl) then some v else none)
          else cache.get later k d)

module _ {D N W : Type 0} (deleted_pods : Expiring D Pod) (missing_pods : Expiring N Present)
    (client : Client W) where
  -- What happens to the informer: a deletion, or a call of `GetPod` with what the lister answers.
  pub data Use : Type 0 where
    deletes : Time → Object → Use
    asks : Time → Result Pod → String → String → Use

  unfoldable pub use_once : Use → Informer D N → W → Informer D N × W
  use_once (deletes t o) i w = (on_delete deleted_pods missing_pods i t o, w)
  use_once (asks t listed namespace name) i w =
      let reply = get_pod deleted_pods missing_pods client i t w listed namespace name in
      (reply.informer, reply.world)

  unfoldable pub use_all : List Use → Informer D N → W → Informer D N × W
  unfolding use_once
  use_all [] i w = (i, w)
  use_all (u ∷ uses) i w = let (i', w') = use_once u i w in use_all uses i' w'

  -- the pod of an object, if there is one, has another key
  abbrev pub IsOther : String → Option Pod → Type 0
  IsOther key none = Unit
  IsOther key (some p) = (pod_key p.namespace p.name == key) ≡ false

  -- It is not the deletion of a pod with this key.
  abbrev pub Leaves : String → Use → Type 0
  Leaves key (deletes t o) = IsOther key (to_pod o)
  Leaves key (asks t listed namespace name) = Unit

  -- The pod is in the cache of the deleted ones until `later`.
  record IsCached (key : String) (p : Pod) (later : Time) (i : Informer D N) : Type 0 where
    started : i.started ≡ true
    there : deleted_pods.get later key i.deleted ≡ some p

  -- If the API does not know a pod, it is not asked for it again within a minute.
  get_pod-get_pod :
      (i : Informer D N) (now later : Time) (w : W) (namespace name : String) (d e f : Error)
      → Expires missing_pods
      → i.started ≡ true
      → is d not_found ≡ true
      → is e not_found ≡ true
      → is f not_found ≡ true
      → deleted_pods.get now (pod_key namespace name) i.deleted ≡ none
      → deleted_pods.get later (pod_key namespace name) i.deleted ≡ none
      → missing_pods.get now (pod_key namespace name) i.not_found ≡ none
      → (client.get_pod w namespace name).0 ≡ err d
      → ltb later (now + not_found_ttl) ≡ true
      → let first = get_pod deleted_pods missing_pods client i now w (err e) namespace name in
        let second =
          get_pod deleted_pods missing_pods client first.informer later first.world
            (err f)
            namespace
            name in
        (first.answer ≡ err d) × (second.answer ≡ err f) × (second.world ≡ first.world)
  unfolding get_pod
  get_pod-get_pod i now later w namespace name d e f x started hd he hf a b c asked soon =
      simp (started, hd, he, hf, a, b, c, asked, x.get-set, eq_refl, soon) (refl, refl, refl)
