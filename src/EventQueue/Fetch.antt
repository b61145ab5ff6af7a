-- ===== src/EventQueue/Fetch.antt =====
-- `EventFetcher.Fetch`: one message of the queue.
use kigeon.Prelude.{◌≡◌, refl, ◌⊎◌, inl, inr, String, Option, none, some, []}
use kigeon.Errors.{
  Error, sentinel, no_message, canceled, deadline_exceeded, wrap, is, Result, err, wrap_err,
}
use kigeon.Kubernetes.{Event}
use kigeon.Loki.Sender.{Sender, Outside, process_event}

-- What `Fetch` meets: the error of the consumer, the error of the batch, the message if one came,
-- and the error of the context.
pub record Batch : Type 0 where
  pub fetch_error : Option Error
  pub batch_error : Option Error
  pub message : Option String
  pub context_error : Option Error

-- `EventFetcher.Fetch`; `unmarshal` is `json.Unmarshal` into an event
unfoldable pub fetch : (String → Result Event) → Batch → Result Event
fetch unmarshal b = elim b.fetch_error [
  | some e ↦ err (wrap "can not fetch event: %w" [] e)
  | none ↦ elim b.batch_error [
    | some e ↦ err (wrap "error during message fetching: %w" [] e)
    | none ↦ elim b.message [
      | some text ↦ wrap_err "can not JSON unmarshal message into an event: %w" [] (unmarshal text)
      | none ↦ elim b.context_error [ some e ↦ err e | none ↦ err (sentinel no_message) ]
    ]
  ]
]

-- An idle queue is no error of a sender: if no message came, and neither the consumer nor the batch
-- reports an error, the round of the sender that fetches does nothing and returns nil, be it that
-- the context is still open, was cancelled, or has passed its deadline.
process_event_on_idle_queue :
    (s : Sender) (w : Outside) (unmarshal : String → Result Event) (b : Batch)
    → w.fetched ≡ fetch unmarshal b
    → b.fetch_error ≡ none
    → b.batch_error ≡ none
    → b.message ≡ none
    → (b.context_error ≡ none)
      ⊎ (b.context_error ≡ some (sentinel canceled))
      ⊎ (b.context_error ≡ some (sentinel deadline_exceeded))
    → process_event s w ≡ ([], none)
unfolding fetch process_event is
process_event_on_idle_queue s w unmarshal b h f e m (inl open_context) =
    let answer : fetch unmarshal b ≡ err (sentinel no_message) = rw (f, e, m, open_context) refl in
    simp (h, answer)
process_event_on_idle_queue s w unmarshal b h f e m (inr (inl was_canceled)) =
    let answer : fetch unmarshal b ≡ err (sentinel canceled) = rw (f, e, m, was_canceled) refl in
    simp (h, answer)
process_event_on_idle_queue s w unmarshal b h f e m (inr (inr too_late)) =
    let answer : fetch unmarshal b ≡ err (sentinel deadline_exceeded) =
      rw (f, e, m, too_late) refl in
    simp (h, answer)
