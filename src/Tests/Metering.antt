-- ===== src/Tests/Metering.antt =====
-- The metrics (Metrics.antt and EventQueue/Collector.antt), over a client that keeps every call.
use kigeon.Prelude.{
  format_nat, ℕ, ◌≡◌, refl, ◌+◌, String, some, List, [], ◌∷◌, ◌++◌, All, count, if◌then◌else◌, ◌==◌,
  arith, pos, negsuc,
}
use kigeon.Errors.{errorf, ok}
use kigeon.Metrics.{sent, failed}
use kigeon.Metrics.Collectors.{Call, effect_calls, calls_of}
use kigeon.Metrics.Arity.{Fits, calls-Fits}
use kigeon.Metrics.{published, synthetic}
use kigeon.Metrics.Collectors.{
  Trips, filter_calls, publish_calls, watch_calls, increment, kubernetes_calls,
}
use kigeon.EventSender.FilteredFetcher
use kigeon.Metrics.Counting.{Prometheus, Counts, is_call, make_calls}
use kigeon.Metrics.Senders.{HasReported, effects-HasReported, total, process_event-total}
use kigeon.EventQueue.Collector.{StreamInfo, ConsumerInfo, Scrape, collect, float64, backlog}
use kigeon.EventQueue.Collector.Exact.{
  stream_numbers, IsSmall, backlogs, collect_exact, IsDescribed,
}
use kigeon.Loki.Sender.{Effect, acked, counted, process_event}
use kigeon.Tests.Data.{back_off, plain_sender, failing, answering}

abbrev call_list : Prometheus (List Call)
call_list = record {
  add = λ s vector values. record { vector = vector; values = values } ∷ s;
  value = λ s vector values. count (is_call vector values) s;
}

call_list-Counts : Counts call_list
call_list-Counts = record { add = λ s c vector values. refl }

-- the client makes one round trip for each request
abbrev one_trip : ℕ → Trips
one_trip code r = some (format_nat code) ∷ []

-- the effects of a round that was sent, and of one that failed
abbrev two_rounds : List Effect
two_rounds = counted sent ∷ acked ∷ counted failed ∷ []

effects-HasReported_example : HasReported call_list "loki" (one_trip 204) two_rounds []
effects-HasReported_example =
    effects-HasReported call_list call_list-Counts "loki" (one_trip 204) two_rounds []

process_event-total_example :
    (after : List Call) × (make_calls call_list
        (calls_of
          (effect_calls "loki" (one_trip 500))
          (process_event plain_sender (answering failing 500)).0)
        []
      ≡ some after)
    × ((other : String)
        → total call_list after other
          ≡ (if "loki" == other then 1 else 0) + total call_list [] other)
process_event-total_example =
    process_event-total call_list call_list-Counts "loki" (one_trip 500) plain_sender
      (answering failing 500) back_off [] refl

abbrev queue_info : StreamInfo
queue_info = record { bytes = 4096; msgs = 3; max_bytes = pos 524288000 }

abbrev loki_consumer : ConsumerInfo
loki_consumer = record { name = "loki"; num_pending = 2; num_ack_pending = pos 1 }

abbrev scrape : Scrape
scrape = record {
  info = ok queue_info;
  consumers = loki_consumer ∷ [];
  list_error = some (errorf "timeout" []);
}

loki_consumer-IsSmall : IsSmall loki_consumer
loki_consumer-IsSmall = record { unacked = 1; acks = refl; small = ground arith }

collect_exact_example :
    (collect scrape).0
    ≡ stream_numbers 4096 3 524288000 ++ backlogs (loki_consumer ∷ []) (loki_consumer-IsSmall, tt)
collect_exact_example =
    collect_exact scrape queue_info 524288000 (loki_consumer-IsSmall, tt) refl (ground arith)
      (ground arith) refl (ground arith)

calls-Fits_example :
    All Fits (effect_calls "loki" (one_trip 204) (counted sent))
    × All Fits (filter_calls "loki" FilteredFetcher.counted_filtered)
    × All Fits (publish_calls published)
    × All Fits (watch_calls synthetic)
    × All Fits (kubernetes_calls (increment "200" "GET" "api"))
    × All IsDescribed (collect scrape).0
calls-Fits_example =
    calls-Fits "loki" (one_trip 204) (counted sent) FilteredFetcher.counted_filtered published
      synthetic (increment "200" "GET" "api") scrape

-- float64 rounds to the even neighbour
rounds : float64 9007199254740993 ≡ 9007199254740992
unfolding float64
rounds = refl

-- the sum of the counts wraps around
wraps : backlog (record { name = "loki"; num_pending = 1; num_ack_pending = negsuc 0 }) ≡ 0
unfolding backlog
wraps = refl
