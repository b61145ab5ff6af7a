-- ===== src/EventQueue/Publish/Preserving.antt =====
-- What `PublishEvent` keeps of the server's state, and what it has done when it counts an event as
-- published.
use kigeon.Prelude.{
  ◌≡◌, refl, inl, inr, String, Bool, true, false, Option, none, some, [], ◌∷◌, arith, Bool-cases,
}
use kigeon.Errors.{Error, Result, ok, err}
use kigeon.Kubernetes.{Event}
use kigeon.Metrics.{published}
use kigeon.EventQueue.Identifier.{event_identifier}
use kigeon.EventQueue.Publish.{
  JetStream, Publishing, subject_name, is_key_not_found, stored, record_published, publish_data,
  publish_new, publish_event,
}

module _ {S : Type 0} (js : JetStream S) where
  -- a property of the state that the two calls that change it keep
  pub record IsKept {ℓ} (P : S → Type ℓ) : Type ℓ where
    pub publish : (s : S) (subject text id : String) → P s → P (js.publish s subject text id).1
    pub put : (s : S) (k : String) → P s → P (js.put s k).1

  module _ {ℓ} {P : S → Type ℓ} (kept : IsKept P) where
    record_published-keeps :
        (id : String) (answer : Result Bool × S)
        → P answer.1
        → P (record_published js id answer).state
    unfolding record_published
    record_published-keeps id (err e, s) h = h
    record_published-keeps id (ok true, s) h = h
    record_published-keeps id (ok false, s) h = kept.put s id h

    publish_data-keeps :
        (s : S) (id : String) (text : Result String) → P s → P (publish_data js s id text).state
    unfolding publish_data
    publish_data-keeps s id (err e) h = h
    publish_data-keeps s id (ok text) h =
        record_published-keeps id (js.publish s subject_name text id)
          (kept.publish s subject_name text id h)

    publish_new-keeps :
        (s : S) (id : String) (ev : Event) (found : Option Error)
        → P s
        → P (publish_new js s id ev found).state
    unfolding publish_new
    publish_new-keeps s id ev none h = h
    publish_new-keeps s id ev (some e) h = elim (Bool-cases (is_key_not_found e)) [
      | inl missing ↦ rw missing (publish_data-keeps s id (js.marshal ev) h)
      | inr broken ↦ rw broken h
    ]

    -- A property that `Publish` and `Put` keep is kept by the whole call.
    pub publish_event-keeps : (s : S) (event : Event) → P s → P (publish_event js s event).state
    unfolding publish_event
    publish_event-keeps s event h =
        publish_new-keeps s (event_identifier (stored event)) (stored event)
          (js.get s (event_identifier (stored event))) h

  -- the message was accepted as a new one, and then its identifier was put
  pub record WasAccepted (s : S) (ev : Event) (p : Publishing S) : Type 0 where
    pub text : String
    pub marshalled : js.marshal ev ≡ ok text
    pub accepted : S
    pub answer : js.publish s subject_name text (event_identifier ev) ≡ (ok false, accepted)
    pub state : p.state ≡ (js.put accepted (event_identifier ev)).1

  record_published-inv :
      (id : String) (answer : Result Bool × S)
      → (record_published js id answer).counted ≡ published ∷ []
      → (t : S) × (answer ≡ (ok false, t))
        × ((record_published js id answer).state ≡ (js.put t id).1)
  unfolding record_published
  record_published-inv id (err e, s) h = cc
  record_published-inv id (ok true, s) h = cc
  record_published-inv id (ok false, s) h = (s, refl, refl)

  publish_data-inv :
      (s : S) (ev : Event) (text : Result String)
      → js.marshal ev ≡ text
      → (publish_data js s (event_identifier ev) text).counted ≡ published ∷ []
      → WasAccepted s ev (publish_data js s (event_identifier ev) text)
  unfolding publish_data
  publish_data-inv s ev (err e) m h = cc
  publish_data-inv s ev (ok text) m h =
      let (t, answer, state) =
        record_published-inv (event_identifier ev)
          (js.publish s subject_name text (event_identifier ev)) h in
      record { text = text; marshalled = m; accepted = t; answer = answer; state = state }

  publish_new-inv :
      (s : S) (ev : Event) (found : Option Error)
      → (publish_new js s (event_identifier ev) ev found).counted ≡ published ∷ []
      → WasAccepted s ev (publish_new js s (event_identifier ev) ev found)
  unfolding publish_new
  publish_new-inv s ev none h = cc
  publish_new-inv s ev (some e) h = elim (Bool-cases (is_key_not_found e)) [
    | inl missing ↦ rw missing (publish_data-inv s ev (js.marshal ev) refl (simp missing at h))
    | inr broken ↦ ground arith
  ]

  -- An event that is counted as published was accepted.
  pub published-WasAccepted :
      (s : S) (event : Event)
      → (publish_event js s event).counted ≡ published ∷ []
      → WasAccepted s (stored event) (publish_event js s event)
  unfolding publish_event
  published-WasAccepted s event h =
      publish_new-inv s (stored event) (js.get s (event_identifier (stored event))) h
