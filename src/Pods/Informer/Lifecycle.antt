-- ===== src/Pods/Informer/Lifecycle.antt =====
-- Start and Stop of internal/pods/informer.go.
use kigeon.Prelude.{
  ◌≡◌, refl, ℕ, zero, suc, ◌+◌, String, Bool, true, false, ◌&&◌, Option, none, some, List, [], ◌∷◌,
  if◌then◌else◌, is_some, Bool-cases, inl, inr, ◌⊎◌,
}
use kigeon.Errors.{Error, errorf, wrap, ok}
use kigeon.Kubernetes.{Pod, Time}
use kigeon.Pods.Informer.{Expiring, Client, Present, Informer, get_pod}

-- the answers of `WaitForCacheSync`
abbrev pub all_synced : List Bool → Bool
all_synced [] = true
all_synced (synced ∷ answers) = synced && all_synced answers

module _ {D N : Type 0} where
  -- `Start`, given what the registration of the handler returns and which caches are synced in time
  unfoldable pub start : Option Error → List Bool → Informer D N → Option Error × Informer D N
  start (some e) synced i = (some (wrap "failed to register pod delete handler: %w" [] e), i)
  start none synced i =
      if all_synced synced
      then (none, record i { started = true })
      else (some (errorf "pod informer cache not synced" []), i)

-- what `Stop` has done: whether `stopOnce` was used, and how often the channel was closed, which
-- panics the second time, and the factory was shut down
pub record Stopping : Type 0 where
  pub done : Bool
  pub closed : ℕ
  pub shut_down : ℕ

abbrev pub not_stopped : Stopping
not_stopped = record { done = false; closed = 0; shut_down = 0 }

-- `Stop`
unfoldable pub stop : Stopping → Stopping
stop s =
    if s.done then s else record { done = true; closed = 1 + s.closed; shut_down = 1 + s.shut_down }

unfoldable pub stop_times : ℕ → Stopping → Stopping
unfolding stop
stop_times zero s = s
stop_times (suc n) s = stop_times n (stop s)

-- However often `Stop` is called, the channel is closed once and the factory is shut down once.
stop_times_once :
    (n : ℕ) → stop_times (suc n) not_stopped ≡ record { done = true; closed = 1; shut_down = 1 }
unfolding stop_times
stop_times_once n = stopped-stop_times n
  where
    stopped-stop_times :
        (n : ℕ)
        → stop_times n (record { done = true; closed = 1; shut_down = 1 })
          ≡ record { done = true; closed = 1; shut_down = 1 }
    stopped-stop_times zero = refl
    stopped-stop_times (suc n) = stopped-stop_times n

module _ {D N W : Type 0} (deleted_pods : Expiring D Pod) (missing_pods : Expiring N Present)
    (client : Client W) where
  -- what `GetPod` gives for a pod that the informer knows, with the informer and the error of `Start`
  abbrev pub Serves : W → Pod → String → String → Time → Option Error × Informer D N → Type 0
  Serves w p namespace name now (e, i) =
      let reply = get_pod deleted_pods missing_pods client i now w (ok p) namespace name in
      ((e ≡ none) × (reply.answer ≡ ok p) × (reply.world ≡ w))
      ⊎ ((is_some e ≡ true)
          × (reply.answer ≡ (client.get_pod w namespace name).0)
          × (reply.world ≡ (client.get_pod w namespace name).1))

  -- If `Start` returns no error, `GetPod` gives a pod that the informer knows without a request to
  -- the API; if it returns one, because the handler was not registered or a cache not synced in time,
  -- `GetPod` goes on asking the API.
  start-get_pod :
      (handler : Option Error) (synced : List Bool) (i : Informer D N) (w : W) (p : Pod)
      (namespace name : String) (now : Time)
      → i.started ≡ false
      → Serves w p namespace name now (start handler synced i)
  unfolding start get_pod
  start-get_pod (some e) synced i w p namespace name now fresh = rw fresh (inr (refl, refl, refl))
  start-get_pod none synced i w p namespace name now fresh = elim (Bool-cases (all_synced synced)) [
    | inl synced_all ↦ rw synced_all (inl (refl, refl, refl))
    | inr missed ↦ rw (missed, fresh) (inr (refl, refl, refl))
  ]
