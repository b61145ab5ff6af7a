-- ===== src/Metrics/Collectors.antt =====
-- internal/metrics/metrics.go and kubernetes.go: the declared metrics with their labels, and the calls
-- that the program makes of them. A call is `WithLabelValues(values...)` of a counter or of a
-- histogram, followed by `Inc` or `Observe`.
use kigeon.Prelude.{String, Option, none, some, List, [], ◌∷◌, ◌++◌}
use kigeon.Metrics.{
  SenderResult, sent, filtered, skipped, rejected, failed, PublishResult, published, duplicate,
  error, Source, kubernetes, synthetic,
}
use kigeon.Loki.Sender
use kigeon.Loki.Sender.{Response, Effect, acked, counted, hook_observed, hook_failed, posted}
use kigeon.EventSender.FilteredFetcher

-- a counter or histogram vector, less its help text and its buckets
pub record Vector : Type 0 where
  pub namespace : String
  pub name : String
  pub labels : List String

pub record Call : Type 0 where
  pub vector : Vector
  pub values : List String

abbrev pub namespace : String
namespace = "kigeon"

abbrev pub events_watched : Vector
events_watched = record {
  namespace = namespace;
  name = "events_watched_total";
  labels = "source" ∷ [];
}

abbrev pub events_published : Vector
events_published = record {
  namespace = namespace;
  name = "events_published_total";
  labels = "result" ∷ [];
}

abbrev pub sender_events : Vector
sender_events = record {
  namespace = namespace;
  name = "sender_events_total";
  labels = "sender" ∷ "result" ∷ [];
}

abbrev pub sender_requests : Vector
sender_requests = record {
  namespace = namespace;
  name = "sender_http_requests_total";
  labels = "sender" ∷ "code" ∷ [];
}

abbrev pub sender_request_duration : Vector
sender_request_duration = record {
  namespace = namespace;
  name = "sender_http_request_duration_seconds";
  labels = "sender" ∷ "code" ∷ [];
}

abbrev pub hook_duration : Vector
hook_duration = record {
  namespace = namespace;
  name = "hook_duration_seconds";
  labels = "sender" ∷ [];
}

abbrev pub hook_errors : Vector
hook_errors = record { namespace = namespace; name = "hook_errors_total"; labels = "sender" ∷ [] }

abbrev pub kubernetes_requests : Vector
kubernetes_requests = record {
  namespace = namespace;
  name = "kubernetes_requests_total";
  labels = "code" ∷ "method" ∷ [];
}

abbrev pub kubernetes_request_retries : Vector
kubernetes_request_retries = record {
  namespace = namespace;
  name = "kubernetes_request_retries_total";
  labels = "code" ∷ "method" ∷ [];
}

abbrev pub kubernetes_request_duration : Vector
kubernetes_request_duration = record {
  namespace = namespace;
  name = "kubernetes_request_duration_seconds";
  labels = "verb" ∷ [];
}

-- the vectors that `init` registers, besides the collectors of the Go runtime and the process
abbrev pub registered : List Vector
registered =
    events_watched ∷ events_published ∷ sender_events ∷ sender_requests ∷ sender_request_duration
    ∷ hook_duration ∷ hook_errors ∷ kubernetes_requests ∷ kubernetes_request_retries
    ∷ kubernetes_request_duration ∷ []

-- the texts of the label values
unfoldable pub result_text : SenderResult → String
result_text sent = "sent"
result_text filtered = "filtered"
result_text skipped = "skipped"
result_text rejected = "rejected"
result_text failed = "failed"

unfoldable pub publish_text : PublishResult → String
publish_text published = "published"
publish_text duplicate = "duplicate"
publish_text error = "error"

unfoldable pub source_text : Source → String
source_text kubernetes = "kubernetes"
source_text synthetic = "synthetic"

-- `countResult`
abbrev pub count_result : String → SenderResult → Call
count_result sender r = record { vector = sender_events; values = sender ∷ result_text r ∷ [] }

-- the calls for a sequence of effects, in order
unfoldable pub calls_of {ℓ} : {A : Type ℓ} → (A → List Call) → List A → List Call
calls_of f [] = []
calls_of f (a ∷ l) = f a ++ calls_of f l

-- a round trip through `InstrumentRoundTripper`: one without a response is not counted
unfoldable pub round_trip : String → Option String → List Call
round_trip sender none = []
round_trip sender (some code) =
    record { vector = sender_request_duration; values = sender ∷ code ∷ [] }
    ∷ record { vector = sender_requests; values = sender ∷ code ∷ [] }
    ∷ []

-- The round trips that the HTTP client makes for a request, more than one if it is redirected: of each
-- what promhttp writes as the label `code` of its response, or `none` if there is no response.
abbrev pub Trips : Type 0
Trips = Sender.Request → List (Option String)

-- the calls of a round of a sender
unfoldable pub effect_calls : String → Trips → Effect → List Call
unfolding result_text round_trip calls_of
effect_calls sender trips acked = []
effect_calls sender trips (counted r) = count_result sender r ∷ []
effect_calls sender trips hook_observed =
    record { vector = hook_duration; values = sender ∷ [] } ∷ []
effect_calls sender trips hook_failed = record { vector = hook_errors; values = sender ∷ [] } ∷ []
effect_calls sender trips (posted r) = calls_of (round_trip sender) (trips r)

-- the calls of the filtered fetcher
unfoldable pub filter_calls : String → FilteredFetcher.Effect → List Call
unfolding result_text
filter_calls sender (FilteredFetcher.acked e) = []
filter_calls sender FilteredFetcher.counted_filtered = count_result sender filtered ∷ []

unfoldable pub publish_calls : PublishResult → List Call
unfolding publish_text
publish_calls r = record { vector = events_published; values = publish_text r ∷ [] } ∷ []

unfoldable pub watch_calls : Source → List Call
unfolding source_text
watch_calls s = record { vector = events_watched; values = source_text s ∷ [] } ∷ []

-- what client-go reports of its requests: `Increment`, `IncrementRetry` and `Observe`, which leave
-- out the host and the path of the URL
pub data KubernetesRequest : Type 0 where
  increment increment_retry : String → String → String → KubernetesRequest
  observe : String → String → KubernetesRequest

unfoldable pub kubernetes_calls : KubernetesRequest → List Call
kubernetes_calls (increment code method host) =
    record { vector = kubernetes_requests; values = code ∷ method ∷ [] } ∷ []
kubernetes_calls (increment_retry code method host) =
    record { vector = kubernetes_request_retries; values = code ∷ method ∷ [] } ∷ []
kubernetes_calls (observe verb url) =
    record { vector = kubernetes_request_duration; values = verb ∷ [] } ∷ []
