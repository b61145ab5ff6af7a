-- ===== src/Pipeline.antt =====
-- How the parts work together at run time: `Publish` of internal/eventqueue fills the stream, and each
-- sender fetches through the filtered fetcher of internal/eventsender/filter.go, acknowledges and
-- sends (`processEvent` of internal/eventsender/loki). Deliveries of any messages to any services, in
-- any order and repeated, stand between calls of `PublishEvent`.
pub mod Delivered
pub mod Acknowledged
pub mod Lossless
pub mod Published
pub mod Pushed
pub mod Redelivery
pub mod Once
use kigeon.Prelude.{
  ◌≡◌, ◌⊎◌, true, ◌+◌, if◌then◌else◌, ℕ, String, Bool, false, ◌||◌, Option, none, some, List, [],
  ◌∷◌, is_some, leb, count,
}
use kigeon.Errors.{Error, Result, ok, err}
use kigeon.Kubernetes.{ObjectReference, Event}
use kigeon.EventQueue.Publish.{JetStream, publish_event}
use kigeon.EventQueue.Fetch.{Batch}
use kigeon.EventQueue.Fetch
use kigeon.EventSender.FilteredFetcher.{Answer, Returned, event, error, waiting}
use kigeon.EventSender.FilteredFetcher
use kigeon.Loki.Sender.{Sender, Outside, Effect, acked, Round, process_event}
use kigeon.Loki.Sender.Results.{is_acked}
use kigeon.Loki.Sender.Verdict.{hook_skips}
use kigeon.Loki.Sender.Delivery.{is_posted, answered, is_success, is_bad_request}

-- JetStream with its consumers, over the state `S` of the server: `pending` is the message with a
-- number in the stream, as long as the server keeps it for the durable consumer of a service, `ack`
-- is `Msg.Ack`, and `drop` is what the server does by itself when a message is over the limits of
-- the stream or of its deliveries.
pub record Broker (S : Type 0) : Type 0 where
  pub js : JetStream S
  pub unmarshal : String → Result Event
  pub subscribed : S → String → Bool
  pub pending : S → String → ℕ → Option String
  pub ack : S → String → ℕ → Option Error × S
  pub drop : S → String → ℕ → S

-- one message that reaches the sender of a service, the namespace filter and what else is outside
pub record Delivery : Type 0 where
  pub service : String
  pub number : ℕ
  pub sender : Sender
  pub is_allowed : ObjectReference → Bool
  pub outside : Outside

pub data Occurrence : Type 0 where
  publishes : Event → Occurrence
  delivers : Delivery → Occurrence
  drops : String → ℕ → Occurrence

-- What was done for a delivery: by the loop of the filtered fetcher and by the round of the sender.
pub data Entry : Type 0 where
  handled : Delivery → FilteredFetcher.Fetch → Round → Entry
  dropped : String → ℕ → Entry

pub record System (S : Type 0) : Type 0 where
  pub server : S
  pub log : List Entry

-- the batch of `Fetch` with one message
abbrev pub batch_of : String → Batch
batch_of text = record {
  fetch_error = none;
  batch_error = none;
  message = some text;
  context_error = none;
}

-- a round of the sender on what the filtered fetcher returned, if it returned
unfoldable pub round_on : Sender → Outside → Option Error → Returned → Round
round_on s w ack (event e) = process_event s (record w { fetched = ok e; ack = ack })
round_on s w ack (error e) = process_event s (record w { fetched = err e; ack = ack })
round_on s w ack waiting = ([], none)

abbrev pub is_filter_ack : FilteredFetcher.Effect → Bool
is_filter_ack (FilteredFetcher.acked e) = true
is_filter_ack FilteredFetcher.counted_filtered = false

-- if the filtered fetcher or the sender acknowledged the message
abbrev pub was_acked : FilteredFetcher.Fetch → Round → Bool
was_acked f r = leb 1 (count is_filter_ack f.effects + count is_acked r.0)

module _ {S : Type 0} (b : Broker S) where
  -- `filteredFetcher.Fetch` over `EventFetcher.Fetch` on one message
  abbrev pub fetched : Delivery → S → String → FilteredFetcher.Fetch
  fetched d s text = FilteredFetcher.fetch d.is_allowed (
      record {
        result = Fetch.fetch b.unmarshal (batch_of text);
        ack = (b.ack s d.service d.number).0;
      }
      ∷ [])

  abbrev pub round_of : Delivery → S → String → Round
  round_of d s text =
      round_on d.sender d.outside (b.ack s d.service d.number).0 (fetched d s text).returned

  -- nothing is delivered that the server no longer keeps for the service
  unfoldable pub take_delivery : Delivery → System S → Option String → System S
  unfolding round_on
  take_delivery d x none = x
  take_delivery d x (some text) =
      let f = fetched d x.server text in
      let r = round_of d x.server text in
      record {
        server = if was_acked f r then (b.ack x.server d.service d.number).1 else x.server;
        log = handled d f r ∷ x.log;
      }

  unfoldable pub do_action : Occurrence → System S → System S
  unfolding take_delivery
  do_action (publishes e) x = record x { server = (publish_event b.js x.server e).state }
  do_action (delivers d) x = take_delivery d x (b.pending x.server d.service d.number)
  do_action (drops v q) x = record { server = b.drop x.server v q; log = dropped v q ∷ x.log }

  unfoldable pub run : List Occurrence → System S → System S
  unfolding do_action
  run [] x = x
  run (a ∷ occurrences) x = run occurrences (do_action a x)

-- What the sender did with an event whose round it acknowledged: in dry-run mode nothing, or the
-- hook skips the event, or one request was made, which Loki answered with a 2xx status or 400.
abbrev pub IsDone : Delivery → Round → Event → Type 0
IsDone d r e =
    (d.sender.noop ≡ true)
    ⊎ (hook_skips d.sender d.outside.hooks e ≡ true)
    ⊎ ((count is_posted r.0 ≡ 1)
        × (count (answered d.outside is_success) r.0 + count (answered d.outside is_bad_request) r.0
            ≡ 1))

-- The filter rejected the event, or the sender is done with it.
abbrev pub IsHandled : Delivery → Round → Event → Type 0
IsHandled d r e = (d.is_allowed e.involved_object ≡ false) ⊎ IsDone d r e

-- An entry that settles the event of a message: the server dropped the message, or a delivery of it
-- was acknowledged and its event is handled.
abbrev pub SettlesEvent : String → ℕ → Event → Entry → Type 0
SettlesEvent v q ev (dropped u p) = (u ≡ v) × (p ≡ q)
SettlesEvent v q ev (handled d f r) =
    (d.service ≡ v) × (d.number ≡ q) × (was_acked f r ≡ true) × IsHandled d r ev

-- the same of the text of a message, which is read as an event if it is not dropped
abbrev pub Settles : (String → Result Event) → String → ℕ → String → Entry → Type 0
Settles unmarshal v q text (dropped u p) = (u ≡ v) × (p ≡ q)
Settles unmarshal v q text (handled d f r) =
    (d.service ≡ v)
    × (d.number ≡ q)
    × (was_acked f r ≡ true)
    × ((e : Event) × (unmarshal text ≡ ok e) × IsHandled d r e)
