-- ===== src/Tests/SenderRounds.antt =====
-- Rounds of a sender (Loki/Sender.antt).
use kigeon.Prelude.{◌≡◌, refl, String, none, [], ◌∷◌, ℕ, ◌+◌, count}
use kigeon.Errors.{Error, errorf, wrap, is, err}
use kigeon.Metrics.{sent, skipped}
use kigeon.Loki.Hook.Values.{go_map_to_starlark_dict, go_value_to_starlark}
use kigeon.Loki.Hook.{execute, with_pod, to_starlark_dict}
use kigeon.Loki.Sender.{deliver, on_error_of}
use kigeon.Loki.Sender.{
  acked, counted, hook_observed, hook_failed, posted, push_request, default_config, process_event,
  then_do,
}
use kigeon.Loki.Sender.Results.{is_acked, is_result, IsSettled, process_event-IsSettled}
use kigeon.Loki.Sender.Verdict.{process_event_skips}
use kigeon.Loki.Sender.Delivery.{
  is_posted, answered, is_success, is_bad_request, IsForeign, IsAccounted,
  process_event-IsAccounted, acked_was_answered,
}
use kigeon.Loki.Sender.HookErrors.{process_event_use_default}
use kigeon.Tests.Data.{
  back_off, rewriting, failing, plain_sender, hooked_sender, pod_agnostic, answering,
}

sent_round : process_event plain_sender (answering rewriting 204) ≡ (
  posted (push_request (default_config plain_sender back_off) "payload")
      ∷ counted sent
      ∷ acked
      ∷ [],
  none,
)
unfolding process_event deliver
sent_round = refl

pub answering-IsForeign : (code : ℕ) → IsForeign (answering failing code)
answering-IsForeign code = record {
  post = λ r e h. cc;
  request = λ u e h. cc;
  payload = λ p e h. cc;
}

process_event-IsSettled_example :
    IsSettled (answering failing 500) (process_event (hooked_sender "") (answering failing 500))
process_event-IsSettled_example =
    process_event-IsSettled (hooked_sender "") (answering failing 500) back_off refl

process_event-IsAccounted_example :
    IsAccounted (answering failing 400) (process_event (hooked_sender "") (answering failing 400)).0
process_event-IsAccounted_example =
    process_event-IsAccounted (hooked_sender "") (answering failing 400) back_off
      (answering-IsForeign 400) refl refl

plain_acked : count is_acked (process_event plain_sender (answering failing 204)).0 ≡ 1
unfolding process_event deliver
plain_acked = refl

acked_was_answered_example :
    let t = (process_event plain_sender (answering failing 204)).0 in
    (count is_posted t ≡ 1)
    × (count (answered (answering failing 204) is_success) t
          + count (answered (answering failing 204) is_bad_request) t
        ≡ 1)
acked_was_answered_example =
    acked_was_answered plain_sender (answering failing 204) back_off (answering-IsForeign 204) refl
      refl plain_acked refl

abbrev script_error : Error
script_error = wrap "starlark hook execution failed: %w" [] (errorf "division by zero" [])

script_fails :
    (on_error : String)
    → execute failing pod_agnostic (default_config (hooked_sender on_error) back_off) back_off
      ≡ err script_error
unfolding execute with_pod to_starlark_dict go_map_to_starlark_dict go_value_to_starlark
script_fails on_error = refl

process_event_skips_example :
    count (is_result skipped) (process_event (hooked_sender "skip") (answering failing 204)).0 ≡ 1
unfolding execute with_pod to_starlark_dict go_map_to_starlark_dict go_value_to_starlark is
process_event_skips_example =
    process_event_skips (hooked_sender "skip") (answering failing 204) back_off refl

process_event_use_default_example :
    process_event (hooked_sender "") (answering failing 204)
    ≡ then_do
        (hook_observed ∷ hook_failed ∷ [])
        (process_event (record (hooked_sender "") { hook = none }) (answering failing 204))
unfolding is on_error_of
process_event_use_default_example =
    process_event_use_default (hooked_sender "") (answering failing 204) back_off pod_agnostic
      script_error refl refl (script_fails "") refl refl refl
