-- ===== src/Metrics/Senders.antt =====
-- The metrics of a sender: what the rounds of internal/eventsender/loki/loki.go count of their results
-- and of the answers of Loki.
use kigeon.Prelude.{
  ◌≡◌, refl, ℕ, ◌+◌, String, some, List, [], ◌∷◌, arith, count, if◌then◌else◌, ◌==◌,
}
use kigeon.Errors.{ok}
use kigeon.Kubernetes.{Event}
use kigeon.Metrics.{SenderResult, sent, filtered, skipped, rejected, failed}
use kigeon.Metrics.Collectors.{
  Vector, Trips, sender_events, sender_requests, result_text, effect_calls, calls_of,
}
use kigeon.Metrics.Arity.{effect_calls-Fits}
use kigeon.Metrics.Counting.{
  Prometheus, Counts, is_call, make_calls, make_calls-HasCounted, All-calls_of, count-calls_of,
  count-and,
}
use kigeon.Loki.Sender
use kigeon.Loki.Sender.{
  Outside, Response, Effect, acked, counted, hook_observed, hook_failed, posted, process_event,
}
use kigeon.Loki.Sender.Results.{is_result, is_failure, process_event-IsSettled, results_add_up}
use kigeon.Metrics.Calls.{has_code, round_trips, counted_calls, request_calls}

module _ {S : Type 0} (p : Prometheus S) (name : String) (trips : Trips) where
  -- `n` is added to the sender's counter of events with the result that is written as `text`, and
  -- nothing to the other senders' counters with this text.
  abbrev pub AddsEvents : S → S → String → ℕ → Type 0
  AddsEvents s after text n =
      (sender : String)
      → p.value after sender_events (sender ∷ text ∷ [])
        ≡ (if name == sender then n else 0) + p.value s sender_events (sender ∷ text ∷ [])

  -- What a sender adds to the metrics with its effects.
  pub record HasReported (effects : List Effect) (s : S) : Type 0 where
    pub after : S
    pub made : make_calls p (calls_of (effect_calls name trips) effects) s ≡ some after
    pub sent_events : AddsEvents s after "sent" (count (is_result sent) effects)
    pub filtered_events : AddsEvents s after "filtered" (count (is_result filtered) effects)
    pub skipped_events : AddsEvents s after "skipped" (count (is_result skipped) effects)
    pub rejected_events : AddsEvents s after "rejected" (count (is_result rejected) effects)
    pub failed_events : AddsEvents s after "failed" (count (is_result failed) effects)
    pub requests :
        (sender code : String)
        → p.value after sender_requests (sender ∷ code ∷ [])
          ≡ (if name == sender then count (has_code code) (round_trips trips effects) else 0)
            + p.value s sender_requests (sender ∷ code ∷ [])

is_failure-failed :
    (effects : List Effect) → count is_failure effects ≡ count (is_result failed) effects
is_failure-failed [] = refl
is_failure-failed (e ∷ effects) = ground (arith, is_failure-failed effects)

module _ {S : Type 0} (p : Prometheus S) where
  -- the counters of one sender's results, added up
  abbrev pub total : S → String → ℕ
  total s sender =
      p.value s sender_events (sender ∷ "sent" ∷ [])
      + p.value s sender_events (sender ∷ "filtered" ∷ [])
      + p.value s sender_events (sender ∷ "skipped" ∷ [])
      + p.value s sender_events (sender ∷ "rejected" ∷ [])
      + p.value s sender_events (sender ∷ "failed" ∷ [])

module _ {S : Type 0} (p : Prometheus S) (counts : Counts p) (name : String) (trips : Trips) where
  counted_events :
      (effects : List Effect) (s after : S)
      → ((v : Vector) (values : List String)
          → p.value after v values
            ≡ count (is_call v values) (calls_of (effect_calls name trips) effects)
              + p.value s v values)
      → (r : SenderResult)
      → AddsEvents p name trips s after (result_text r) (count (is_result r) effects)
  counted_events effects s after counts r = λ sender. omega (
    arith,
    counts sender_events (sender ∷ result_text r ∷ []),
    count-calls_of _ (effect_calls name trips) _ (counted_calls name sender trips r) effects,
    count-and (name == sender) (is_result r) effects,
  )

  -- What a sender does never makes a call of the metrics with the wrong number of label values, which
  -- would panic. It adds the numbers of its effects that count the results sent, filtered, skipped,
  -- rejected and failed to its counters with the labels `sent`, `filtered`, `skipped`, `rejected`
  -- and `failed`; to its counter of a status code the number of round trips for its requests whose
  -- response has the code as its label; and nothing to these counters of other senders.
  pub effects-HasReported : (effects : List Effect) (s : S) → HasReported p name trips effects s
  unfolding result_text
  effects-HasReported effects s =
      let c =
        make_calls-HasCounted p counts (calls_of (effect_calls name trips) effects) s
          (All-calls_of _ (effect_calls name trips) (effect_calls-Fits name trips) effects) in
      record {
        after = c.after;
        made = c.made;
        sent_events = counted_events effects s _ c.counts sent;
        filtered_events = counted_events effects s _ c.counts filtered;
        skipped_events = counted_events effects s _ c.counts skipped;
        rejected_events = counted_events effects s _ c.counts rejected;
        failed_events = counted_events effects s _ c.counts failed;
        requests = λ sender code. omega (
          arith,
          c.counts sender_requests (sender ∷ code ∷ []),
          request_calls name sender trips code effects,
        );
      }

  -- A round on a fetched event does not panic in a call of the metrics, and adds one to the counters of
  -- its sender's results taken together, and nothing to those of other senders.
  pub process_event-total :
      (sender : Sender.Sender) (w : Outside) (event : Event) (s : S)
      → w.fetched ≡ ok event
      → (after : S) × (make_calls p
            (calls_of (effect_calls name trips) (process_event sender w).0)
            s
          ≡ some after)
        × ((other : String)
            → total p after other ≡ (if name == other then 1 else 0) + total p s other)
  process_event-total sender w event s fetched =
      let effects = (process_event sender w).0 in
      let r = effects-HasReported effects s in
      let settled = process_event-IsSettled sender w event fetched in
      (
        r.after,
        r.made,
        λ other. ground (
          arith,
          r.sent_events other,
          r.filtered_events other,
          r.skipped_events other,
          r.rejected_events other,
          r.failed_events other,
          settled.one_result,
          results_add_up effects,
          is_failure-failed effects,
        ),
      )
