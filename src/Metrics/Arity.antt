-- ===== src/Metrics/Arity.antt =====
-- The numbers of label values in the calls of the metrics of internal/metrics and in the gauges of
-- internal/eventqueue/metrics.go. The Prometheus client panics where one is wrong.
use kigeon.Prelude.{◌≡◌, refl, String, true, Option, none, some, All}
use kigeon.Metrics.{PublishResult, Source}
use kigeon.Metrics.Collectors.{
  Trips, Call, round_trip, effect_calls, filter_calls, publish_calls, watch_calls,
  KubernetesRequest, increment, increment_retry, observe, kubernetes_calls,
}
use kigeon.Metrics.Counting.{fits, All-calls_of}
use kigeon.EventQueue.Collector.{Scrape, collect}
use kigeon.EventQueue.Collector.Exact.{IsDescribed, collect-IsDescribed}
use kigeon.EventSender.FilteredFetcher
use kigeon.Loki.Sender.{Effect, acked, counted, hook_observed, hook_failed, posted}

abbrev pub Fits : Call → Type 0
Fits c = fits c ≡ true

round_trip-Fits : (sender : String) (a : Option String) → All Fits (round_trip sender a)
unfolding round_trip
round_trip-Fits sender none = tt
round_trip-Fits sender (some a) = (refl, (refl, tt))

pub effect_calls-Fits :
    (sender : String) (trips : Trips) (e : Effect) → All Fits (effect_calls sender trips e)
unfolding effect_calls
effect_calls-Fits sender trips acked = tt
effect_calls-Fits sender trips (counted r) = (refl, tt)
effect_calls-Fits sender trips hook_observed = (refl, tt)
effect_calls-Fits sender trips hook_failed = (refl, tt)
effect_calls-Fits sender trips (posted r) =
    All-calls_of Fits (round_trip sender) (round_trip-Fits sender) (trips r)

filter_calls-Fits :
    (sender : String) (e : FilteredFetcher.Effect) → All Fits (filter_calls sender e)
unfolding filter_calls
filter_calls-Fits sender (FilteredFetcher.acked e) = tt
filter_calls-Fits sender FilteredFetcher.counted_filtered = (refl, tt)

kubernetes_calls-Fits : (k : KubernetesRequest) → All Fits (kubernetes_calls k)
unfolding kubernetes_calls
kubernetes_calls-Fits (increment code method host) = (refl, tt)
kubernetes_calls-Fits (increment_retry code method host) = (refl, tt)
kubernetes_calls-Fits (observe verb url) = (refl, tt)

-- Every call that the program makes of a metric, for whatever a sender, its filter, the queue, the
-- event pusher and client-go report, has as many label values as the metric has labels; and so has
-- every gauge of a scrape of the queue, which is one that `Describe` announces.
pub calls-Fits :
    (sender : String) (trips : Trips) (e : Effect) (f : FilteredFetcher.Effect) (r : PublishResult)
    (source : Source) (k : KubernetesRequest) (s : Scrape)
    → All Fits (effect_calls sender trips e)
      × All Fits (filter_calls sender f)
      × All Fits (publish_calls r)
      × All Fits (watch_calls source)
      × All Fits (kubernetes_calls k)
      × All IsDescribed (collect s).0
unfolding publish_calls watch_calls
calls-Fits sender trips e f r source k s = (
  effect_calls-Fits sender trips e,
  filter_calls-Fits sender f,
  (refl, tt),
  (refl, tt),
  kubernetes_calls-Fits k,
  collect-IsDescribed s,
)
