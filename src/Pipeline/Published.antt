-- ===== src/Pipeline/Published.antt =====
-- From `PublishEvent` to the senders: what becomes of a published event at every service that is
-- subscribed.
use kigeon.Prelude.{
  ◌≡◌, ◌∙◌, ap, ◌⊎◌, inl, inr, ℕ, String, true, false, some, List, [], ◌∷◌, All, Any, Any-map,
}
use kigeon.Errors.{ok}
use kigeon.Kubernetes.{Event}
use kigeon.Metrics.{published}
use kigeon.EventQueue.Publish.{stored, publish_event}
use kigeon.EventQueue.Publish.Preserving.{published-WasAccepted}
use kigeon.Pipeline.Lossless.{Keeps, IsForeignTo, run-IsSafe}
use kigeon.Pipeline.{
  Broker, Occurrence, publishes, Entry, handled, dropped, do_action, run, Settles, SettlesEvent,
}

-- What the program relies on: a message that the server accepts as a new one gets a number, under
-- which it is kept for every service that is subscribed.
pub record Reaches {S : Type 0} (b : Broker S) : Type 0 where
  pub publish :
      (s t : S) (subject text id : String)
      → b.js.publish s subject text id ≡ (ok false, t)
      → (q : ℕ) × ((v : String) → b.subscribed s v ≡ true → b.pending t v q ≡ some text)

-- encoding/json reads the text of the event back, as it does if its times are whole seconds
abbrev pub IsReadable : {S : Type 0} → Broker S → Event → Type 0
IsReadable b e = (text : String) → b.js.marshal e ≡ ok text → b.unmarshal text ≡ ok e

-- What becomes of an event that is published to a service: it has a number, under which after the
-- occurrences that follow the server still keeps a message that is read as the event, or the log
-- has an entry that settles the event.
abbrev pub IsServed : {S : Type 0} → Broker S → S → Event → String → List Occurrence → Type 0
IsServed b s event v occurrences =
    let x = run b (publishes event ∷ occurrences) (record { server = s; log = [] }) in
    (q : ℕ) × (((text : String) × (b.pending x.server v q ≡ some text)
        × (b.unmarshal text ≡ ok (stored event)))
      ⊎ Any (SettlesEvent v q (stored event)) x.log)

module _ {S : Type 0} (b : Broker S) (keeps : Keeps b) (reaches : Reaches b) where
  reads-event :
      (v : String) (q : ℕ) (text : String) (ev : Event)
      → b.unmarshal text ≡ ok ev
      → (entry : Entry) → Settles b.unmarshal v q text entry
      → SettlesEvent v q ev entry
  reads-event v q text ev reads (dropped u p) h = h
  reads-event v q text ev reads (handled d f r) (su, sp, acks, (e, decoded, done)) =
      let same : e ≡ ev = cc in (su, sp, acks, rw (← same) done)

  -- An event that `PublishEvent` counts as `published` gets a number in the stream, under which for a
  -- service that was subscribed then, and after any sequence of publications, deliveries and
  -- drops: the server still keeps a message that is read as the event, or the log has a drop of
  -- the message, or a delivery of it that was acknowledged and of which the namespace filter
  -- rejects the event, or the hook skips it, by its answer or by failing under `onError: skip`, or
  -- one request was made for it, which Loki answered with a 2xx status or with 400, or the sender is
  -- in dry-run mode. The event is one that encoding/json reads back, the server numbers and keeps
  -- messages as it promises, and no error from outside wraps `errRejected`.
  pub published_reaches_senders :
      (s : S) (event : Event) (v : String) (occurrences : List Occurrence)
      → (publish_event b.js s event).counted ≡ published ∷ []
      → IsReadable b (stored event)
      → b.subscribed s v ≡ true
      → All IsForeignTo occurrences
      → IsServed b s event v occurrences
  unfolding run do_action
  published_reaches_senders s event v occurrences counted readable subscribed foreign =
      let was = published-WasAccepted b.js s event counted in
      let (q, kept) = reaches.publish s was.accepted _ _ _ was.answer in
      let reads = readable was.text was.marshalled in
      let published_state : b.pending (publish_event b.js s event).state v q ≡ some was.text =
        ap (λ t. b.pending t v q) was.state ∙ keeps.put was.accepted _ v q ∙ kept v subscribed in
      elim (run-IsSafe b keeps v q was.text occurrences
        (do_action b (publishes event) (record { server = s; log = [] })) foreign
        (inl published_state)) [
          | inl pending ↦ (q, inl (was.text, pending, reads))
          | inr settled ↦
              (q, inr (Any-map (reads-event v q was.text (stored event) reads) _ settled))
        ]
