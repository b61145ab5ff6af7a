-- ===== src/Loki/Sender/Results.antt =====
-- What one round of the sender counts and acknowledges (`processEvent`, `deliver`,
-- `handleHookError`).
use kigeon.Prelude.{
  ◌+◌, ◌≡◌, refl, Bool, true, false, ◌||◌, Option, none, some, List, [], ◌∷◌, arith, count, leb,
  if◌then◌else◌, is_some, ◌↔◌, ◌⊎◌,
}
use kigeon.Errors.{Error, is, no_message, canceled, deadline_exceeded, Result, ok, err}
use kigeon.Kubernetes.{Event}
use kigeon.Metrics.{SenderResult, sent, filtered, skipped, rejected, failed}
use kigeon.Loki.Config.{Config}
use kigeon.Loki.Hook.{HookExecutor, execute}
use kigeon.Loki.Sender.{
  Sender, Outside, Effect, acked, counted, hook_observed, Round, deliver, default_config,
  handle_hook_error, after_hook, run_hook, process_event, then_do,
}

abbrev pub is_acked : Effect → Bool
is_acked acked = true
is_acked _ = false

abbrev pub is_counted : Effect → Bool
is_counted (counted r) = true
is_counted _ = false

abbrev pub is_failure : Effect → Bool
is_failure (counted failed) = true
is_failure _ = false

abbrev pub is_result : SenderResult → Effect → Bool
is_result sent (counted sent) = true
is_result filtered (counted filtered) = true
is_result skipped (counted skipped) = true
is_result rejected (counted rejected) = true
is_result failed (counted failed) = true
is_result _ _ = false

-- An effect that counts a result counts one of the five.
is_counted_cases :
    (e : Effect)
    → (if is_counted e then 1 else 0)
      ≡ (if is_result sent e then 1 else 0)
        + (if is_result filtered e then 1 else 0)
        + (if is_result skipped e then 1 else 0)
        + (if is_result rejected e then 1 else 0)
        + (if is_failure e then 1 else 0)
is_counted_cases e = ground arith

pub results_add_up :
    (t : List Effect)
    → count is_counted t
      ≡ count (is_result sent) t
        + count (is_result filtered) t
        + count (is_result skipped) t
        + count (is_result rejected) t
        + count is_failure t
results_add_up [] = refl
results_add_up (e ∷ t) = omega (arith, is_counted_cases e, results_add_up t)

-- A round that has dealt with an event: one result, and an acknowledgement unless it failed.
pub record IsSettled (w : Outside) (r : Round) : Type 0 where
  pub one_result : count is_counted r.0 ≡ 1
  pub not_filtered : count (is_result filtered) r.0 ≡ 0
  pub acked_or_failed : count is_acked r.0 + count is_failure r.0 ≡ 1
  pub error : is_some r.1 ≡ (leb 1 (count is_failure r.0) || is_some w.ack)

module _ (s : Sender) (w : Outside) (event : Event) where
  deliver-IsSettled : (cfg : Config) → IsSettled w (deliver s w event cfg)
  unfolding deliver
  deliver-IsSettled cfg = ground arith

  handle_hook_error-IsSettled : (e : Error) → IsSettled w (handle_hook_error s w e event)
  unfolding handle_hook_error
  handle_hook_error-IsSettled e = ground (arith, deliver-IsSettled (default_config s event))

  after_hook-IsSettled : (r : Result Config) → IsSettled w (after_hook s w event r)
  unfolding after_hook handle_hook_error
  after_hook-IsSettled (ok cfg) = deliver-IsSettled cfg
  after_hook-IsSettled (err e) = ground (arith, deliver-IsSettled (default_config s event))

  observed-IsSettled : (r : Round) → IsSettled w r → IsSettled w (then_do (hook_observed ∷ []) r)
  observed-IsSettled r h = ground arith

  run_hook-IsSettled : (h : Option HookExecutor) → IsSettled w (run_hook s w event h)
  unfolding run_hook
  run_hook-IsSettled none = deliver-IsSettled (default_config s event)
  run_hook-IsSettled (some h) =
      observed-IsSettled _ (after_hook-IsSettled (execute w.hooks h (default_config s event) event))

  -- Whatever the hook, the configuration and the outside do, an event that was fetched is counted
  -- under exactly one result, which is not `filtered`; it is acknowledged exactly once, unless the result is `failed`, and
  -- then not at all; and an error is returned exactly if it failed or the acknowledgement did.
  pub process_event-IsSettled : w.fetched ≡ ok event → IsSettled w (process_event s w)
  unfolding process_event
  process_event-IsSettled fetched = simp fetched (run_hook-IsSettled s.hook)

module _ (s : Sender) (w : Outside) where
  -- A round in which `Fetch` failed does nothing to the outside, and reports the error unless it
  -- wraps `ErrNoMessage` or says that the context was cancelled or timed out.
  pub process_event_idle :
      (e : Error)
      → w.fetched ≡ err e
      → ((process_event s w).0 ≡ [])
        × (((process_event s w).1 ≡ none)
            ↔ ((is e no_message ≡ true) ⊎ (is e canceled ≡ true) ⊎ (is e deadline_exceeded ≡ true)))
  unfolding process_event
  process_event_idle e h = rw h (ground arith)
