-- ===== src/Pipeline/Delivered.antt =====
-- What one delivery does: the message is acknowledged only when its event is handled.
use kigeon.Prelude.{
  ap, ◌≡◌, refl, ◌⊎◌, inl, inr, ℕ, String, true, false, Option, none, some, [], ◌≤◌, arith, count,
  eqb, eqb_iff, Bool-cases,
}
use kigeon.Errors.{Error, Result, ok, err, wrap_err}
use kigeon.Kubernetes.{Event}
use kigeon.EventQueue.Fetch
use kigeon.EventSender.FilteredFetcher.{Returned, event, error, waiting, fetch_step, skip_event}
use kigeon.EventSender.FilteredFetcher
use kigeon.Loki.Sender.{Outside, process_event}
use kigeon.Loki.Sender.Results.{is_acked, is_failure, process_event-IsSettled, process_event_idle}
use kigeon.Loki.Sender.Verdict.{hook_skips}
use kigeon.Loki.Sender.Delivery.{IsForeign, acked_was_answered}
use kigeon.Pipeline.{Broker, Delivery, round_on, was_acked, fetched, IsDone, IsHandled}

zero_or_one : (n : ℕ) → n ≤ 1 → (n ≡ 0) ⊎ (n ≡ 1)
zero_or_one n h = elim (Bool-cases (eqb n 0)) [
  | inl is_zero ↦ inl ((eqb_iff n 0).0 is_zero)
  | inr positive ↦ inr (ground arith)
]

-- the round on a fetched event
module _ (d : Delivery) (a : Option Error) (e : Event) where
  abbrev during : Outside
  during = record d.outside { fetched = ok e; ack = a }

  -- It acknowledges the event, or counts it as failed.
  pub failed_or_acked :
      ((count is_acked (process_event d.sender during).0 ≡ 0)
        × (count is_failure (process_event d.sender during).0 ≡ 1))
      ⊎ ((count is_acked (process_event d.sender during).0 ≡ 1)
          × (count is_failure (process_event d.sender during).0 ≡ 0))
  failed_or_acked =
      let settled = process_event-IsSettled d.sender during e refl in
      elim (zero_or_one (count is_acked (process_event d.sender during).0)
        (omega (arith, settled))) [
          | inl none_acked ↦ inl (none_acked, omega (arith, settled, none_acked))
          | inr one_acked ↦ inr (one_acked, omega (arith, settled, one_acked))
        ]

  acked-IsDone :
      IsForeign d.outside
      → count is_acked (process_event d.sender during).0 ≡ 1
      → IsDone d (process_event d.sender during) e
  acked-IsDone foreign acks =
      let same : IsForeign during = record {
        post = foreign.post;
        request = foreign.request;
        payload = foreign.payload;
      } in
      elim (Bool-cases d.sender.noop) [
        | inl quiet ↦ inl quiet
        | inr loud ↦ elim (Bool-cases (hook_skips d.sender d.outside.hooks e)) [
          | inl skips ↦ inr (inl skips)
          | inr wants ↦ inr (inr (acked_was_answered d.sender during e same refl loud acks wants))
        ]
      ]

module _ (d : Delivery) (foreign : IsForeign d.outside) (a : Option Error) where
  -- Nothing was acknowledged, or the message was and its event is handled.
  unfoldable pub IsFair : Result Event → FilteredFetcher.Fetch → Type 0
  IsFair message f =
      let r = round_on d.sender d.outside a f.returned in
      (was_acked f r ≡ false)
      ⊎ ((was_acked f r ≡ true) × ((e : Event) × (message ≡ ok e) × IsHandled d r e))

  failed_round-acked : (e : Error) → count is_acked (round_on d.sender d.outside a (error e)).0 ≡ 0
  unfolding round_on
  failed_round-acked e = ap (count is_acked) (process_event_idle d.sender _ e refl).0

  skip_event-IsFair :
      (e : Event) (ack : Option Error)
      → d.is_allowed e.involved_object ≡ false
      → IsFair (ok e) (skip_event e ack [] (FilteredFetcher.fetch d.is_allowed []))
  unfolding IsFair skip_event
  skip_event-IsFair e none rejects = inr (ground arith, (e, refl, inl rejects))
  skip_event-IsFair e (some failure) rejects = inr (ground arith, (e, refl, inl rejects))

  passed-IsFair :
      (e : Event) → IsFair (ok e) (record { effects = []; returned = event e; rest = [] })
  unfolding IsFair round_on
  passed-IsFair e = elim (failed_or_acked d a e) [
    | inl (quiet, failure) ↦ inl (rw quiet refl)
    | inr (acks, fine) ↦ inr (rw acks refl, (e, refl, inr (acked-IsDone d a e foreign acks)))
  ]

  fetch_step-IsFair :
      (message : Result Event)
      → IsFair message (
          fetch_step d.is_allowed
            (wrap_err "can not JSON unmarshal message into an event: %w" [] message)
            a
            []
            (FilteredFetcher.fetch d.is_allowed []))
  unfolding fetch_step IsFair
  fetch_step-IsFair (err e) = inl (rw (failed_round-acked _) refl)
  fetch_step-IsFair (ok e) = elim (Bool-cases (d.is_allowed e.involved_object)) [
    | inl pass ↦ rw pass (passed-IsFair e)
    | inr reject ↦ rw reject (skip_event-IsFair e a reject)
  ]

module _ {S : Type 0} (b : Broker S) where
  pub fetched-IsFair :
      (d : Delivery) (foreign : IsForeign d.outside) (s : S) (text : String)
      → IsFair d foreign (b.ack s d.service d.number).0 (b.unmarshal text) (fetched b d s text)
  unfolding FilteredFetcher.fetch Fetch.fetch
  fetched-IsFair d foreign s text =
      fetch_step-IsFair d foreign (b.ack s d.service d.number).0 (b.unmarshal text)
