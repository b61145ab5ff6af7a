-- ===== src/Loki/Sender/Verdict.antt =====
-- Which events the hook of a sender skips (`processEvent`, `handleHookError`).
use kigeon.Prelude.{
  ◌≡◌, refl, Bool, false, ◌||◌, if◌then◌else◌, Option, none, some, ◌==◌, arith, count, Bool-cases,
  inl, inr, eq_iff, ap, sym,
}
use kigeon.Errors.{Error, is, skip, Result, ok, err}
use kigeon.Kubernetes.{Event}
use kigeon.Metrics.{skipped}
use kigeon.Loki.Config.{Config, ConfigHook}
use kigeon.Loki.Hook.{HookRuntime, execute}
use kigeon.Loki.Sender.Results.{is_result}
use kigeon.Loki.Sender.{
  Sender, Outside, deliver, on_error_of, default_config, handle_hook_error, after_hook, run_hook,
  process_event,
}

-- the configuration of a hook says `onError: skip`
abbrev pub skips_failures : Option ConfigHook → Bool
skips_failures none = false
skips_failures (some c) = c.on_error == "skip"

-- The hook's answer skips the event: it is `ErrSkip`, or another error under `onError: skip`.
abbrev pub is_skip : Sender → Result Config → Bool
is_skip s (ok cfg) = false
is_skip s (err e) = is e skip || skips_failures s.config.hook

-- The hook skips the event. It is asked with the configuration of the sender that has the labels of
-- the event.
abbrev pub hook_skips : Sender → HookRuntime → Event → Bool
hook_skips s hooks event = elim s.hook [
  | none ↦ false
  | some h ↦ is_skip s (execute hooks h (default_config s event) event)
]

module _ (s : Sender) (w : Outside) (event : Event) where
  deliver_skips : (cfg : Config) → count (is_result skipped) (deliver s w event cfg).0 ≡ 0
  unfolding deliver
  deliver_skips cfg = ground arith

  on_error_of_skip : (on_error_of s == "skip") ≡ skips_failures s.config.hook
  unfolding on_error_of
  on_error_of_skip =
      elim s.config.hook
        as (λ o.
          (elim o [
            | none ↦ "use-default"
            | some h ↦ if h.on_error == "" then "use-default" else h.on_error
          ]
            == "skip")
          ≡ skips_failures o) [
            | none ↦ refl
            | some c ↦ elim (Bool-cases (c.on_error == "")) [
              | inl empty ↦ rw empty (ap (λ t. t == "skip") (sym ((eq_iff c.on_error "").0 empty)))
              | inr given ↦ rw given refl
            ]
          ]

  handle_hook_error_skips :
      (e : Error)
      → count (is_result skipped) (handle_hook_error s w e event).0
        ≡ (if skips_failures s.config.hook then 1 else 0)
  unfolding handle_hook_error
  handle_hook_error_skips e =
      ground (arith, on_error_of_skip, deliver_skips (default_config s event))

  after_hook_skips :
      (r : Result Config)
      → count (is_result skipped) (after_hook s w event r).0 ≡ (if is_skip s r then 1 else 0)
  unfolding after_hook
  after_hook_skips (ok cfg) = deliver_skips cfg
  after_hook_skips (err e) = ground (arith, handle_hook_error_skips e)

  run_hook_skips :
      count (is_result skipped) (run_hook s w event s.hook).0
      ≡ (if hook_skips s w.hooks event then 1 else 0)
  unfolding run_hook
  run_hook_skips =
      elim s.hook
        as (λ o. count (is_result skipped) (run_hook s w event o).0 ≡ (
          if elim o [
            | none ↦ false
            | some h ↦ is_skip s (execute w.hooks h (default_config s event) event)
          ]
          then 1
          else 0)) [
            | none ↦ deliver_skips (default_config s event)
            | some h ↦
                omega (arith, after_hook_skips (execute w.hooks h (default_config s event) event))
          ]

  -- A fetched event counts as `skipped` once if the hook skips it, by answering that it is to be
  -- skipped or by failing under `onError: skip`, and else not at all.
  pub process_event_skips :
      w.fetched ≡ ok event
      → count (is_result skipped) (process_event s w).0
        ≡ (if hook_skips s w.hooks event then 1 else 0)
  unfolding process_event
  process_event_skips fetched = simp fetched run_hook_skips
