-- ===== src/Pipeline/Redelivery.antt =====
-- When the server delivers a message again: what a delivery leaves of it.
use kigeon.Prelude.{
  ◌≡◌, inl, inr, ℕ, ◌+◌, String, true, ◌&&◌, none, some, arith, count, leb, Bool-cases,
  Option-cases, if◌then◌else◌,
}
use kigeon.Errors.{ok}
use kigeon.Kubernetes.{Event}
use kigeon.EventQueue.Fetch
use kigeon.EventSender.FilteredFetcher.{event}
use kigeon.EventSender.FilteredFetcher
use kigeon.Loki.Sender.Results.{is_failure}
use kigeon.Pipeline.Delivered.{failed_or_acked}
use kigeon.Pipeline.{
  Broker, Delivery, System, round_on, take_delivery, delivers, do_action, round_of,
}

acked_at_least : (n : ℕ) → leb 1 (1 + n) ≡ true
acked_at_least n = ground arith

module _ {S : Type 0} (b : Broker S) (d : Delivery) (x : System S) (text : String) (e : Event) where
  take_delivery-pending :
      b.pending x.server d.service d.number ≡ some text
      → b.unmarshal text ≡ ok e
      → b.pending (b.ack x.server d.service d.number).1 d.service d.number ≡ none
      → b.pending (take_delivery b d x (some text)).server d.service d.number ≡ (
          if d.is_allowed e.involved_object
            && leb 1 (count is_failure (round_of b d x.server text).0)
          then some text
          else none)
  unfolding take_delivery FilteredFetcher.fetch Fetch.fetch FilteredFetcher.fetch_step round_on
  take_delivery-pending here reads gone = elim (Bool-cases (d.is_allowed e.involved_object)) [
    | inl pass ↦ elim (failed_or_acked d (b.ack x.server d.service d.number).0 e) [
      | inl (quiet, failure) ↦ rw (reads, pass, quiet, failure) here
      | inr (acks, fine) ↦ rw (reads, pass, acks, fine) gone
    ]
    | inr reject ↦ elim (Option-cases (b.ack x.server d.service d.number).0) [
      | inl clean ↦ rw (reads, reject, clean) gone
      | inr (failure, broken) ↦ rw (reads, reject, broken, acked_at_least _) gone
    ]
  ]

  -- After the delivery of a message that is read as an event, where the server no longer keeps a
  -- message that was acknowledged: it keeps this one for the service, to deliver it again, exactly
  -- if the namespace filter lets the event pass and the round counts a failure.
  pub delivers-pending :
      b.pending x.server d.service d.number ≡ some text
      → b.unmarshal text ≡ ok e
      → b.pending (b.ack x.server d.service d.number).1 d.service d.number ≡ none
      → b.pending (do_action b (delivers d) x).server d.service d.number ≡ (
          if d.is_allowed e.involved_object
            && leb 1 (count is_failure (round_of b d x.server text).0)
          then some text
          else none)
  unfolding do_action
  delivers-pending here reads gone = simp (here, take_delivery-pending here reads gone)
