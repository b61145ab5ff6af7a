-- ===== src/Pipeline/Pushed.antt =====
-- From the event pusher to the senders: what becomes of an event that was sent into the buffer of
-- internal/eventpusher.
use kigeon.Prelude.{◌≡◌, ℕ, String, true, none, is_some, List, [], ◌∷◌, ◌++◌}
use kigeon.Kubernetes.{Event}
use kigeon.Metrics.{PublishResult, published, duplicate, error}
use kigeon.EventPusher.{EventPusher}
use kigeon.EventPusher
use kigeon.EventQueue.Publish.{stored, publish_event}
use kigeon.Pipeline.Published.{IsServed}
use kigeon.EventQueue.Publish.Outcomes.{Outcome}
use kigeon.Pipeline.{Broker, Occurrence, publishes, delivers, drops}

-- the events that `PublishEvent` is called with
unfoldable pub published_in : List Occurrence → List Event
published_in [] = []
published_in (publishes e ∷ occurrences) = e ∷ published_in occurrences
published_in (delivers d ∷ occurrences) = published_in occurrences
published_in (drops v q ∷ occurrences) = published_in occurrences

-- the call of `PublishEvent` with an event, after the calls with the events `before`
record Split (event : Event) (before : List Event) (occurrences : List Occurrence) : Type 0 where
  front : List Occurrence
  back : List Occurrence
  whole : occurrences ≡ front ++ publishes event ∷ back
  earlier : published_in front ≡ before

-- What the program relies on: the calls of the server leave the subscriptions.
pub record KeepsSubscriptions {S : Type 0} (b : Broker S) : Type 0 where
  pub publish :
      (s : S) (subject text id v : String)
      → b.subscribed (b.js.publish s subject text id).1 v ≡ b.subscribed s v
  pub put : (s : S) (k v : String) → b.subscribed (b.js.put s k).1 v ≡ b.subscribed s v
  pub ack : (s : S) (u v : String) (p : ℕ) → b.subscribed (b.ack s u p).1 v ≡ b.subscribed s v
  pub drop : (s : S) (u v : String) (p : ℕ) → b.subscribed (b.drop s u p) v ≡ b.subscribed s v

module _ {S : Type 0} (b : Broker S) where
  -- What becomes of an event at a service that is subscribed, by what its call of `PublishEvent`
  -- counts: an error is returned, since the store, encoding/json or JetStream failed; or no error
  -- is, since the store has the event's key or JetStream says that the message is a duplicate; or
  -- JetStream accepted the message as a new one, and the event is served.
  abbrev pub Becomes : S → Event → String → List Occurrence → PublishResult → Type 0
  Becomes s event v back error =
      (is_some (publish_event b.js s event).error ≡ true) × Outcome b.js s (stored event) error
  Becomes s event v back duplicate =
      ((publish_event b.js s event).error ≡ none) × Outcome b.js s (stored event) duplicate
  Becomes s event v back published =
      Outcome b.js s (stored event) published × IsServed b s event v back
