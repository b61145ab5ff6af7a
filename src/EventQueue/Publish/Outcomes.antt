-- ===== src/EventQueue/Publish/Outcomes.antt =====
-- Why `PublishEvent` counts what it counts, in terms of the answers of JetStream and encoding/json.
use kigeon.Prelude.{
  ◌≡◌, ◌≢◌, ◌⊎◌, refl, inl, inr, String, Bool, true, false, Option, none, some, [], ◌∷◌, Bool-cases,
}
use kigeon.Errors.{
  Error, sentinel, errorf, wrap, wrap_both, no_message, rejected, skip, pod_not_found, canceled,
  deadline_exceeded, key_not_found, not_found, server_closed, Result, ok, err,
}
use kigeon.Kubernetes.{Event}
use kigeon.Metrics.{PublishResult, published, duplicate, error}
use kigeon.EventQueue.Identifier.{event_identifier}
use kigeon.EventQueue.Publish.{
  JetStream, subject_name, is_key_not_found, stored, record_published, publish_data, publish_new,
  publish_event,
}

key_not_found_only : (e : Error) → is_key_not_found e ≡ true → e ≡ sentinel key_not_found
key_not_found_only (sentinel no_message) h = cc
key_not_found_only (sentinel rejected) h = cc
key_not_found_only (sentinel skip) h = cc
key_not_found_only (sentinel pod_not_found) h = cc
key_not_found_only (sentinel canceled) h = cc
key_not_found_only (sentinel deadline_exceeded) h = cc
key_not_found_only (sentinel key_not_found) h = refl
key_not_found_only (sentinel not_found) h = cc
key_not_found_only (sentinel server_closed) h = cc
key_not_found_only (errorf format args) h = cc
key_not_found_only (wrap format args e) h = cc
key_not_found_only (wrap_both d e) h = cc

module _ {S : Type 0} (js : JetStream S) where
  -- the answer of JetStream to the message with the event
  abbrev pub Answers : S → Event → Result Bool → Type 0
  Answers s ev answer =
      (text : String) × (t : S) × (js.marshal ev ≡ ok text)
      × (js.publish s subject_name text (event_identifier ev) ≡ (answer, t))

  -- the key of the event is not in the store
  abbrev pub IsNew : S → Event → Type 0
  IsNew s ev = js.get s (event_identifier ev) ≡ some (sentinel key_not_found)

  -- Why an event is counted: it is a duplicate if its key is in the store, or JetStream says so of its
  -- message; it is published if neither holds; and it is an error if the store answers with
  -- another error than that the key is missing, or encoding/json or JetStream fails.
  abbrev pub Outcome : S → Event → PublishResult → Type 0
  Outcome s ev duplicate =
      (js.get s (event_identifier ev) ≡ none) ⊎ (IsNew s ev × Answers s ev (ok true))
  Outcome s ev published = IsNew s ev × Answers s ev (ok false)
  Outcome s ev error =
      ((e : Error) × (js.get s (event_identifier ev) ≡ some e) × (e ≢ sentinel key_not_found))
      ⊎ (IsNew s ev
          × (((e : Error) × (js.marshal ev ≡ err e)) ⊎ ((e : Error) × Answers s ev (err e))))

  sent-Outcome :
      (s : S) (ev : Event) (text : String) (r : PublishResult) (answer : Result Bool × S)
      → IsNew s ev
      → js.marshal ev ≡ ok text
      → js.publish s subject_name text (event_identifier ev) ≡ answer
      → (record_published js (event_identifier ev) answer).counted ≡ r ∷ []
      → Outcome s ev r
  unfolding record_published
  sent-Outcome s ev text error (err e, t) new m a h = inr (new, inr (e, (text, t, m, a)))
  sent-Outcome s ev text duplicate (err e, t) new m a h = cc
  sent-Outcome s ev text published (err e, t) new m a h = cc
  sent-Outcome s ev text error (ok true, t) new m a h = cc
  sent-Outcome s ev text duplicate (ok true, t) new m a h = inr (new, (text, t, m, a))
  sent-Outcome s ev text published (ok true, t) new m a h = cc
  sent-Outcome s ev text error (ok false, t) new m a h = cc
  sent-Outcome s ev text duplicate (ok false, t) new m a h = cc
  sent-Outcome s ev text published (ok false, t) new m a h = (new, (text, t, m, a))

  publish_data-Outcome :
      (s : S) (ev : Event) (r : PublishResult) (text : Result String)
      → IsNew s ev
      → js.marshal ev ≡ text
      → (publish_data js s (event_identifier ev) text).counted ≡ r ∷ []
      → Outcome s ev r
  unfolding publish_data
  publish_data-Outcome s ev error (err e) new m h = inr (new, inl (e, m))
  publish_data-Outcome s ev duplicate (err e) new m h = cc
  publish_data-Outcome s ev published (err e) new m h = cc
  publish_data-Outcome s ev r (ok text) new m h =
      sent-Outcome s ev text r (js.publish s subject_name text (event_identifier ev)) new m refl h

  broken-Outcome :
      (s : S) (ev : Event) (r : PublishResult) (e : Error)
      → js.get s (event_identifier ev) ≡ some e
      → is_key_not_found e ≡ false
      → error ∷ [] ≡ r ∷ []
      → Outcome s ev r
  broken-Outcome s ev error e found other h =
      inl (e, found, λ same. let k : is_key_not_found e ≡ true = rw same refl in cc)
  broken-Outcome s ev duplicate e found other h = cc
  broken-Outcome s ev published e found other h = cc

  publish_new-Outcome :
      (s : S) (ev : Event) (r : PublishResult) (found : Option Error)
      → js.get s (event_identifier ev) ≡ found
      → (publish_new js s (event_identifier ev) ev found).counted ≡ r ∷ []
      → Outcome s ev r
  unfolding publish_new
  publish_new-Outcome s ev duplicate none found h = inl found
  publish_new-Outcome s ev published none found h = cc
  publish_new-Outcome s ev error none found h = cc
  publish_new-Outcome s ev r (some e) found h = elim (Bool-cases (is_key_not_found e)) [
    | inl missing ↦
        publish_data-Outcome s ev r (js.marshal ev) (rw (← key_not_found_only e missing) found) refl
          (simp missing at h)
    | inr broken ↦ broken-Outcome s ev r e found broken (simp broken at h)
  ]

  pub publish_event-Outcome :
      (s : S) (event : Event) (r : PublishResult)
      → (publish_event js s event).counted ≡ r ∷ []
      → Outcome s (stored event) r
  unfolding publish_event
  publish_event-Outcome s event r h =
      publish_new-Outcome s (stored event) r (js.get s (event_identifier (stored event))) refl h
