-- ===== src/Loki/Sender/HookErrors.antt =====
-- What a round of the sender does when the hook fails or skips (`handleHookError`,
-- `processEvent`).
use kigeon.Prelude.{
  ◌≡◌, refl, true, false, none, some, [], ◌∷◌, count, ◌==◌, ◌⊎◌, inl, inr, Bool-cases,
}
use kigeon.Errors.{Error, skip, wrap, is, ok, err}
use kigeon.Kubernetes.{Event}
use kigeon.Metrics.{skipped}
use kigeon.Loki.Hook.{HookExecutor, execute}
use kigeon.Loki.Sender.{
  Sender, Outside, hook_observed, hook_failed, then_do, deliver, default_config, on_error_of,
  handle_hook_error, process_event,
}
use kigeon.Loki.Sender.Results.{is_acked, is_result}
use kigeon.Loki.Sender.Delivery.{is_posted}

module _ (s : Sender) (w : Outside) (event : Event) (h : HookExecutor) (e : Error)
    (fetched : w.fetched ≡ ok event) (hooked : s.hook ≡ some h)
    (failure : execute w.hooks h (default_config s event) event ≡ err e) where
  failed_round :
      is e skip ≡ false
      → process_event s w
        ≡ then_do (hook_observed ∷ hook_failed ∷ []) (handle_hook_error s w e event)
  unfolding process_event
  failed_round real = simp (fetched, hooked, failure, real)

  -- A hook that fails, under any `onError` but "skip" and "fail": beside the two metrics of the
  -- hook, the round is that of the same sender without a hook.
  pub process_event_use_default :
      is e skip ≡ false
      → (on_error_of s == "skip") ≡ false
      → (on_error_of s == "fail") ≡ false
      → process_event s w
        ≡ then_do (hook_observed ∷ hook_failed ∷ []) (process_event (record s { hook = none }) w)
  unfolding process_event deliver default_config
  process_event_use_default real no_skip no_fail =
      simp (fetched, hooked, failure, real, no_skip, no_fail)

  -- A hook that fails under "fail": nothing is sent and nothing acknowledged, and the error of the
  -- hook is returned, wrapped.
  process_event_fail :
      is e skip ≡ false
      → on_error_of s ≡ "fail"
      → (count is_posted (process_event s w).0 ≡ 0)
        × (count is_acked (process_event s w).0 ≡ 0)
        × ((process_event s w).1 ≡ some (wrap "config hook failed: %w" [] e))
  unfolding handle_hook_error
  process_event_fail real fails =
      rw (failed_round real, handle_hook_error, fails) (refl, refl, refl)

  -- A hook that returns None, or fails under "skip": the event is acknowledged, counted as skipped
  -- and not sent.
  process_event_skip :
      (is e skip ≡ true) ⊎ (on_error_of s ≡ "skip")
      → (count is_posted (process_event s w).0 ≡ 0)
        × (count is_acked (process_event s w).0 ≡ 1)
        × (count (is_result skipped) (process_event s w).0 ≡ 1)
  unfolding process_event
  process_event_skip (inl none_returned) =
      simp (fetched, hooked, failure, none_returned) (refl, refl, refl)
  process_event_skip (inr skips) = elim (Bool-cases (is e skip)) [
    | inl none_returned ↦ simp (fetched, hooked, failure, none_returned) (refl, refl, refl)
    | inr real ↦ rw (failed_round real, handle_hook_error, skips) (refl, refl, refl)
  ]
