-- ===== src/EventQueue/Publish.antt =====
-- `PublishEvent`.
pub mod Preserving
pub mod Outcomes
use kigeon.Prelude.{
  ◌≡◌, refl, ◌↔◌, String, Bool, true, false, Option, none, some, List, [], ◌∷◌, inl, inr,
  Bool-cases, if◌then◌else◌, is_some,
}
use kigeon.Errors.{Error, sentinel, key_not_found, same, wrap, Result, ok, err}
use kigeon.Kubernetes.{Event}
use kigeon.Metrics.{PublishResult, published, duplicate, error}
use kigeon.EventQueue.Identifier.{event_identifier}

-- What `PublishEvent` uses of JetStream and of encoding/json, over the state `S` of the server:
-- `KeyValue.Get` and `Put`, and `Publish` of a message with an id, whose acknowledgement says if the
-- server took it for a duplicate.
pub record JetStream (S : Type 0) : Type 0 where
  pub marshal : Event → Result String
  pub get : S → String → Option Error
  pub publish : S → String → String → String → Result Bool × S
  pub put : S → String → Option Error × S

-- What a call of `PublishEvent` leaves: the server's state, the results counted in
-- `EventsPublished`, the error returned, and if a key could not be recorded, which is logged.
pub record Publishing (S : Type 0) : Type 0 where
  pub state : S
  pub counted : List PublishResult
  pub error : Option Error
  pub warned : Bool

abbrev pub subject_name : String
subject_name = "events.k8s"

-- err != jetstream.ErrKeyNotFound, which compares the error itself
abbrev pub is_key_not_found : Error → Bool
is_key_not_found (sentinel s) = same s key_not_found
is_key_not_found _ = false

-- the copy that is stored, without managed fields
unfoldable pub stored : Event → Event
stored event = record event { managed_fields = [] }

module _ {S : Type 0} (js : JetStream S) where
  -- the last part of `PublishEvent`, on the answer to `Publish`
  unfoldable pub record_published : String → Result Bool × S → Publishing S
  record_published id (err e, s) = record {
    state = s;
    counted = error ∷ [];
    error = some (wrap "failed to publish message: %w" [] e);
    warned = false;
  }
  record_published id (ok true, s) = record {
    state = s;
    counted = duplicate ∷ [];
    error = none;
    warned = false;
  }
  record_published id (ok false, s) = record {
    state = (js.put s id).1;
    counted = published ∷ [];
    error = none;
    warned = is_some (js.put s id).0;
  }

  unfoldable pub publish_data : S → String → Result String → Publishing S
  unfolding record_published
  publish_data s id (err e) = record {
    state = s;
    counted = error ∷ [];
    error = some (wrap "can not JSON marshal event %s: %w" (id ∷ []) e);
    warned = false;
  }
  publish_data s id (ok text) = record_published id (js.publish s subject_name text id)

  unfoldable pub publish_new : S → String → Event → Option Error → Publishing S
  unfolding publish_data
  publish_new s id ev none = record {
    state = s;
    counted = duplicate ∷ [];
    error = none;
    warned = false;
  }
  publish_new s id ev (some e) =
      if is_key_not_found e then publish_data s id (js.marshal ev) else record {
        state = s;
        counted = error ∷ [];
        error = some (wrap "failed to check KV store for event UID %s: %w" (id ∷ []) e);
        warned = false;
      }

  -- `PublishEvent`
  unfoldable pub publish_event : S → Event → Publishing S
  unfolding publish_new
  publish_event s event =
      let ev = stored event in let id = event_identifier ev in publish_new s id ev (js.get s id)

  IsCounted : Publishing S → Type 0
  IsCounted p =
      (r : PublishResult) × (p.counted ≡ r ∷ []) × ((r ≡ error) ↔ (is_some p.error ≡ true))

  record_published-IsCounted :
      (id : String) (answer : Result Bool × S) → IsCounted (record_published id answer)
  unfolding record_published IsCounted
  record_published-IsCounted id (err e, s) = (error, refl, ((λ h. refl), λ h. refl))
  record_published-IsCounted id (ok true, s) = (duplicate, refl, ((λ h. cc), λ h. cc))
  record_published-IsCounted id (ok false, s) = (published, refl, ((λ h. cc), λ h. cc))

  publish_data-IsCounted :
      (s : S) (id : String) (text : Result String) → IsCounted (publish_data s id text)
  unfolding publish_data IsCounted
  publish_data-IsCounted s id (err e) = (error, refl, ((λ h. refl), λ h. refl))
  publish_data-IsCounted s id (ok text) =
      record_published-IsCounted id (js.publish s subject_name text id)

  publish_new-IsCounted :
      (s : S) (id : String) (ev : Event) (found : Option Error)
      → IsCounted (publish_new s id ev found)
  unfolding publish_new IsCounted
  publish_new-IsCounted s id ev none = (duplicate, refl, ((λ h. cc), λ h. cc))
  publish_new-IsCounted s id ev (some e) = elim (Bool-cases (is_key_not_found e)) [
    | inl missing ↦ rw missing (publish_data-IsCounted s id (js.marshal ev))
    | inr broken ↦ rw broken (error, refl, ((λ h. refl), λ h. refl))
  ]

  -- Every call counts exactly one result, which is `error` exactly if an error is returned.
  pub publish_event_counts :
      (s : S) (event : Event)
      → (r : PublishResult) × ((publish_event s event).counted ≡ r ∷ [])
        × ((r ≡ error) ↔ (is_some (publish_event s event).error ≡ true))
  unfolding publish_event IsCounted
  publish_event_counts s event =
      let ev = stored event in
      publish_new-IsCounted s (event_identifier ev) ev (js.get s (event_identifier ev))

  -- The managed fields of an event have no part in what is published: events that differ in them
  -- alone are the same to every server.
  publish_event-managed_fields :
      (s : S) (event : Event) (fields : List String)
      → publish_event s (record event { managed_fields = fields }) ≡ publish_event s event
  unfolding publish_event stored
  publish_event-managed_fields s event fields = refl
