-- ===== src/EventQueue/Collector/Exact.antt =====
-- What a scrape of internal/eventqueue/metrics.go reports, and how exact it is.
use kigeon.Prelude.{
  ap, ◌∙◌, ◌≡◌, refl, ℕ, ◌+◌, ◌^◌, ◌<◌, ◌%◌, List, [], ◌∷◌, ◌++◌, All, All-append, Any, arith, pos,
  length, inl, inr,
}
use kigeon.Errors.{ok, Result-cases}
use kigeon.EventQueue.Collector.{
  desc_labels, queue_bytes, queue_messages, queue_max_bytes, float64_int, sender_pending, Gauge,
  StreamInfo, ConsumerInfo, Scrape, uint64_of, float64, backlog, consumer_gauge, consumer_gauges,
  stream_gauges, describe, collect,
}

float64_exact : (n : ℕ) → n < 2 ^ 53 → float64 n ≡ n
unfolding float64
float64_exact n h = ground arith

-- A consumer whose counts are in the range that `float64` keeps: `pending` messages that it was not
-- sent, and `unacked` messages that it has not acknowledged.
pub record IsSmall (c : ConsumerInfo) : Type 0 where
  pub unacked : ℕ
  pub acks : c.num_ack_pending ≡ pos unacked
  pub small : c.num_pending + unacked < 2 ^ 53

-- the messages that a consumer has not processed, in full
abbrev pub unprocessed : (c : ConsumerInfo) → IsSmall c → ℕ
unprocessed c h = c.num_pending + h.unacked

abbrev pub backlogs : (consumers : List ConsumerInfo) → All IsSmall consumers → List Gauge
backlogs [] h = []
backlogs (c ∷ consumers) h =
    record { desc = sender_pending; value = pos (unprocessed c h.0); labels = c.name ∷ [] }
    ∷ backlogs consumers h.1

in_range : (m n : ℕ) → m + n < 2 ^ 53 → (m + n % 2 ^ 64) % 2 ^ 64 ≡ m + n
in_range m n h = omega arith

backlog_exact : (c : ConsumerInfo) (h : IsSmall c) → float64 (backlog c) ≡ unprocessed c h
unfolding backlog uint64_of
backlog_exact c h =
    rw (h.acks, in_range c.num_pending h.unacked h.small) (float64_exact (unprocessed c h) h.small)

consumer_gauges-exact :
    (consumers : List ConsumerInfo) (h : All IsSmall consumers)
    → consumer_gauges consumers ≡ backlogs consumers h
unfolding consumer_gauges consumer_gauge
consumer_gauges-exact [] h = refl
consumer_gauges-exact (c ∷ consumers) h =
    rw (backlog_exact c h.0, consumer_gauges-exact consumers h.1) refl

-- the three gauges of a stream with exact numbers
abbrev pub stream_numbers : ℕ → ℕ → ℕ → List Gauge
stream_numbers bytes msgs max_bytes =
    record { desc = queue_bytes; value = pos bytes; labels = [] }
    ∷ record { desc = queue_messages; value = pos msgs; labels = [] }
    ∷ record { desc = queue_max_bytes; value = pos max_bytes; labels = [] }
    ∷ []

stream_gauges-exact :
    (info : StreamInfo) (max_bytes : ℕ)
    → info.bytes < 2 ^ 53
    → info.msgs < 2 ^ 53
    → info.max_bytes ≡ pos max_bytes
    → max_bytes < 2 ^ 53
    → stream_gauges info ≡ stream_numbers info.bytes info.msgs max_bytes
unfolding stream_gauges float64_int
stream_gauges-exact info m b c same d =
    rw (same, float64_exact info.bytes b, float64_exact info.msgs c, float64_exact m d) refl

-- If the stream answers, a scrape reports three gauges with the stream's bytes, its messages and its
-- limit in bytes, and for each consumer that is listed and in order, under its name, the number of
-- messages that it was not sent or has not acknowledged, also where the listing ends in an error. The
-- numbers are exact if they are not negative and below 2 ^ 53.
pub collect_exact :
    (s : Scrape) (info : StreamInfo) (max_bytes : ℕ) (h : All IsSmall s.consumers)
    → s.info ≡ ok info
    → info.bytes < 2 ^ 53
    → info.msgs < 2 ^ 53
    → info.max_bytes ≡ pos max_bytes
    → max_bytes < 2 ^ 53
    → (collect s).0 ≡ stream_numbers info.bytes info.msgs max_bytes ++ backlogs s.consumers h
unfolding collect
collect_exact s info m h found b c same d = rw found (
    ap (λ gauges. gauges ++ consumer_gauges s.consumers) (stream_gauges-exact info m b c same d)
    ∙ ap (λ more. stream_numbers info.bytes info.msgs m ++ more)
        (consumer_gauges-exact s.consumers h))

-- a gauge that `Describe` announces, with a value for each of its labels
abbrev pub IsDescribed : Gauge → Type 0
IsDescribed g = (Any (λ d. g.desc ≡ d) describe) × (length g.labels ≡ length (desc_labels g.desc))

consumer_gauges-IsDescribed :
    (consumers : List ConsumerInfo) → All IsDescribed (consumer_gauges consumers)
unfolding consumer_gauges consumer_gauge describe desc_labels
consumer_gauges-IsDescribed [] = tt
consumer_gauges-IsDescribed (c ∷ consumers) =
    ((inr (inr (inr (inl refl))), refl), consumer_gauges-IsDescribed consumers)

stream_gauges-IsDescribed : (info : StreamInfo) → All IsDescribed (stream_gauges info)
unfolding stream_gauges describe desc_labels
stream_gauges-IsDescribed info =
    ((inl refl, refl), ((inr (inl refl), refl), ((inr (inr (inl refl)), refl), tt)))

-- Whatever the stream and the listing answer, every gauge of a scrape is one that `Describe`
-- announces, with as many label values as it has labels.
pub collect-IsDescribed : (s : Scrape) → All IsDescribed (collect s).0
unfolding collect
collect-IsDescribed s = elim (Result-cases s.info) [
  | inl (info, found) ↦ rw found (
      All-append IsDescribed (stream_gauges info) _ (stream_gauges-IsDescribed info)
        (consumer_gauges-IsDescribed s.consumers))
  | inr (e, broken) ↦ rw broken tt
]
