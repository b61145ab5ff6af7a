-- ===== src/Pipeline/Acknowledged.antt =====
-- How often one delivery acknowledges its message.
use kigeon.Prelude.{
  ap, ◌≡◌, refl, inl, inr, ℕ, ◌+◌, ◌≤◌, String, false, Option, none, some, [], arith, count,
  Bool-cases,
}
use kigeon.Errors.{Error, Result, ok, err, wrap_err}
use kigeon.Kubernetes.{Event}
use kigeon.EventQueue.Fetch
use kigeon.EventSender.FilteredFetcher.{error, fetch_step, skip_event}
use kigeon.EventSender.FilteredFetcher
use kigeon.Loki.Sender.{Round}
use kigeon.Loki.Sender.Results.{is_acked, process_event-IsSettled, process_event_idle}
use kigeon.Pipeline.{Broker, Delivery, round_on, round_of, is_filter_ack, was_acked, fetched}

-- the calls of `Ack`, by the filtered fetcher and by the sender
abbrev pub acks_of : FilteredFetcher.Fetch → Round → ℕ
acks_of f r = count is_filter_ack f.effects + count is_acked r.0

module _ (d : Delivery) (a : Option Error) where
  delivered_acks : FilteredFetcher.Fetch → ℕ
  delivered_acks f = acks_of f (round_on d.sender d.outside a f.returned)

  failed_round_acks : (e : Error) → count is_acked (round_on d.sender d.outside a (error e)).0 ≡ 0
  unfolding round_on
  failed_round_acks e = ap (count is_acked) (process_event_idle d.sender _ e refl).0

  skip_event_acks :
      (e : Event) (ack : Option Error)
      → delivered_acks (skip_event e ack [] (FilteredFetcher.fetch d.is_allowed [])) ≤ 1
  unfolding delivered_acks skip_event FilteredFetcher.fetch round_on
  skip_event_acks e none = ground arith
  skip_event_acks e (some failure) = omega (arith, failed_round_acks _)

  fetch_step_acks :
      (message : Result Event)
      → delivered_acks (
          fetch_step d.is_allowed
            (wrap_err "can not JSON unmarshal message into an event: %w" [] message)
            a
            []
            (FilteredFetcher.fetch d.is_allowed []))
        ≤ 1
  unfolding delivered_acks fetch_step round_on
  fetch_step_acks (err e) = omega (arith, failed_round_acks _)
  fetch_step_acks (ok e) = elim (Bool-cases (d.is_allowed e.involved_object)) [
    | inl pass ↦ rw pass (
        omega (
          arith,
          process_event-IsSettled d.sender (record d.outside { fetched = ok e; ack = a }) e refl,
        ))
    | inr reject ↦ rw reject (skip_event_acks e a)
  ]

-- A delivery acknowledges its message at most once.
pub fetched_acks :
    {S : Type 0} (b : Broker S) (d : Delivery) (s : S) (text : String)
    → acks_of (fetched b d s text) (round_of b d s text) ≤ 1
unfolding FilteredFetcher.fetch Fetch.fetch delivered_acks
fetched_acks b d s text = fetch_step_acks d (b.ack s d.service d.number).0 (b.unmarshal text)

pub not_acked : (f : FilteredFetcher.Fetch) (r : Round) → was_acked f r ≡ false → acks_of f r ≡ 0
not_acked f r h = ground arith
