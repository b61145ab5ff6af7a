-- ===== src/EventQueue/Collector.antt =====
-- internal/eventqueue/metrics.go: the collector that reports the state of the queue on a scrape. A
-- `uint64` is a number below 2 ^ 64, and `float64` rounds to the nearest number with 53 bits.
pub mod Exact
use kigeon.Prelude.{
  ◌≡◌, refl, ap, ℕ, zero, suc, ◌+◌, ◌-◌, ◌*◌, ◌/◌, ◌%◌, ◌^◌, ◌<◌, String, Bool, true, false, Option,
  none, some, List, [], ◌∷◌, ◌++◌, All, arith, ltb, eqb, if◌then◌else◌, ℤ, pos, negsuc, length,
}
use kigeon.Errors.{Error, Result, ok, err}

-- `queueBytesDesc` to `senderPendingDesc`
pub data Desc : Type 0 where
  queue_bytes queue_messages queue_max_bytes sender_pending : Desc

-- the names of the labels of a description
unfoldable pub desc_labels : Desc → List String
desc_labels sender_pending = "sender" ∷ []
desc_labels _ = []

pub record Gauge : Type 0 where
  pub desc : Desc
  pub value : ℤ
  pub labels : List String

-- what the collector reads of `StreamInfo` and of `ConsumerInfo`
pub record StreamInfo : Type 0 where
  pub bytes : ℕ
  pub msgs : ℕ
  pub max_bytes : ℤ

pub record ConsumerInfo : Type 0 where
  pub name : String
  pub num_pending : ℕ
  pub num_ack_pending : ℤ

-- What a scrape meets: the answer for the stream, the consumers that are listed, and the error at
-- which the listing ends.
pub record Scrape : Type 0 where
  pub info : Result StreamInfo
  pub consumers : List ConsumerInfo
  pub list_error : Option Error

-- a conversion of an `int` to `uint64`
unfoldable pub uint64_of : ℤ → ℕ
uint64_of (pos n) = n % 2 ^ 64
uint64_of (negsuc n) = 2 ^ 64 - 1 - n % 2 ^ 64

-- the number of bits to round off, where `fuel` bounds it: at most 11 of a number below 2 ^ 64
unfoldable pub excess : ℕ → ℕ → ℕ
excess zero n = 0
excess (suc fuel) n = let more = excess fuel (n / 2) in if ltb n (2 ^ 53) then 0 else suc more

-- to the nearest multiple of `unit`, and to the even one between two
unfoldable pub round_to : ℕ → ℕ → ℕ
round_to unit n =
    let down = n / unit in
    let twice = 2 * (n % unit) in
    if ltb twice unit
    then down * unit
    else if ltb unit twice
    then (down + 1) * unit
    else if eqb (down % 2) 0
    then down * unit
    else (down + 1) * unit

-- `float64` of a number below 2 ^ 64
unfoldable pub float64 : ℕ → ℕ
unfolding excess round_to
float64 n = if ltb n (2 ^ 53) then n else round_to (2 ^ excess 11 n) n

unfoldable pub float64_int : ℤ → ℤ
unfolding float64
float64_int (pos n) = pos (float64 n)
float64_int (negsuc n) = negsuc (float64 (n + 1) - 1)

-- consumer.NumPending + uint64(consumer.NumAckPending)
unfoldable pub backlog : ConsumerInfo → ℕ
unfolding uint64_of
backlog c = (c.num_pending + uint64_of c.num_ack_pending) % 2 ^ 64

unfoldable pub consumer_gauge : ConsumerInfo → Gauge
unfolding backlog float64
consumer_gauge c = record {
  desc = sender_pending;
  value = pos (float64 (backlog c));
  labels = c.name ∷ [];
}

unfoldable pub consumer_gauges : List ConsumerInfo → List Gauge
unfolding consumer_gauge
consumer_gauges [] = []
consumer_gauges (c ∷ consumers) = consumer_gauge c ∷ consumer_gauges consumers

unfoldable pub stream_gauges : StreamInfo → List Gauge
unfolding float64 float64_int
stream_gauges info =
    record { desc = queue_bytes; value = pos (float64 info.bytes); labels = [] }
    ∷ record { desc = queue_messages; value = pos (float64 info.msgs); labels = [] }
    ∷ record { desc = queue_max_bytes; value = float64_int info.max_bytes; labels = [] }
    ∷ []

-- `Describe`
unfoldable pub describe : List Desc
describe = queue_bytes ∷ queue_messages ∷ queue_max_bytes ∷ sender_pending ∷ []

-- `Collect`: the metrics that it sends, and the errors that it logs
unfoldable pub collect : Scrape → List Gauge × List Error
unfolding stream_gauges consumer_gauges
collect s = elim s.info [
  | err e ↦ ([], e ∷ [])
  | ok info ↦ (
    stream_gauges info ++ consumer_gauges s.consumers,
    elim s.list_error [ none ↦ [] | some e ↦ e ∷ [] ],
  )
]
