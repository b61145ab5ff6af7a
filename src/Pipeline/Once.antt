-- ===== src/Pipeline/Once.antt =====
-- How often a message is acknowledged.
use kigeon.Prelude.{
  ◌≡◌, refl, ◌∙◌, ◌⊎◌, inl, inr, ℕ, ◌+◌, if◌then◌else◌, ◌≤◌, ◌<◌, String, true, false, ◌&&◌, Option,
  none, some, List, [], ◌∷◌, arith, eqb, eqb_iff, eq_iff, ◌==◌, Bool-cases, if_both,
}
use kigeon.EventQueue.Publish.Preserving.{IsKept, publish_event-keeps}
use kigeon.EventSender.FilteredFetcher
use kigeon.Loki.Sender.{Round}
use kigeon.Pipeline.Acknowledged.{acks_of, fetched_acks, not_acked}
use kigeon.Pipeline.Lossless.{Keeps, same_message}
use kigeon.Pipeline.{
  Broker, Delivery, Occurrence, publishes, delivers, drops, Entry, handled, dropped, System,
  was_acked, fetched, round_of, take_delivery, do_action, run,
}

-- What the program relies on where every acknowledgement takes effect: messages get ascending
-- numbers, `last` bounds those given so far, and a message that is acknowledged or dropped is no
-- longer kept for the service.
pub record Numbers {S : Type 0} (b : Broker S) (last : S → ℕ) : Type 0 where
  pub low : (s : S) (v : String) (q : ℕ) (text : String) → b.pending s v q ≡ some text → q < last s
  pub old :
      (s : S) (subject text id v : String) (q : ℕ)
      → q < last s
      → b.pending (b.js.publish s subject text id).1 v q ≡ b.pending s v q
  pub grows : (s : S) (subject text id : String) → last s ≤ last (b.js.publish s subject text id).1
  pub put : (s : S) (k : String) → last (b.js.put s k).1 ≡ last s
  pub ack : (s : S) (v : String) (q : ℕ) → last (b.ack s v q).1 ≡ last s
  pub drop : (s : S) (v : String) (q : ℕ) → last (b.drop s v q) ≡ last s
  pub acked : (s : S) (v : String) (q : ℕ) → b.pending (b.ack s v q).1 v q ≡ none
  pub dropped : (s : S) (v : String) (q : ℕ) → b.pending (b.drop s v q) v q ≡ none

-- the acknowledgements of the message in an entry of the log, by the filtered fetcher and the sender
abbrev pub acks_in : String → ℕ → Entry → ℕ
acks_in v q (handled d f r) = if d.service == v && eqb d.number q then acks_of f r else 0
acks_in v q (dropped u p) = 0

-- those of the whole log
abbrev pub acks_in_all : String → ℕ → List Entry → ℕ
acks_in_all v q [] = 0
acks_in_all v q (e ∷ log) = acks_in v q e + acks_in_all v q log

module _ {S : Type 0} (b : Broker S) (last : S → ℕ) (keeps : Keeps b) (numbers : Numbers b last)
    (v : String) (q : ℕ) where
  was_once :
      (f : FilteredFetcher.Fetch) (r : Round)
      → was_acked f r ≡ true
      → acks_of f r ≤ 1
      → acks_of f r ≡ 1
  was_once f r acks h = ground arith

  -- The message was kept and is so no more.
  IsGone : S → Type 0
  IsGone s = (b.pending s v q ≡ none) × (q < last s)

  IsGone-IsKept : IsKept b.js IsGone
  unfolding IsGone
  IsGone-IsKept = record {
    publish = λ s subject text id h. (
      numbers.old s subject text id v q h.1 ∙ h.0,
      omega (arith, h.1, numbers.grows s subject text id),
    );
    put = λ s k h. (keeps.put s k v q ∙ h.0, rw (numbers.put s k) h.1);
  }

  -- Nothing was acknowledged, or once, and the message is gone.
  IsOnce : System S → Type 0
  IsOnce x = (acks_in_all v q x.log ≡ 0) ⊎ ((acks_in_all v q x.log ≡ 1) × IsGone x.server)

  ack-IsGone : (s : S) (u : String) (p : ℕ) → IsGone s → IsGone (b.ack s u p).1
  unfolding IsGone
  ack-IsGone s u p h = elim (same_message u v p q) [
    | inl same ↦ (rw (← same.0, ← same.1) (numbers.acked s u p), rw (numbers.ack s u p) h.1)
    | inr other ↦ (keeps.ack s u v p q other ∙ h.0, rw (numbers.ack s u p) h.1)
  ]

  drop-IsGone : (s : S) (u : String) (p : ℕ) → IsGone s → IsGone (b.drop s u p)
  unfolding IsGone
  drop-IsGone s u p h = elim (same_message u v p q) [
    | inl same ↦ (rw (← same.0, ← same.1) (numbers.dropped s u p), rw (numbers.drop s u p) h.1)
    | inr other ↦ (keeps.drop s u v p q other ∙ h.0, rw (numbers.drop s u p) h.1)
  ]

  deliver_other-IsOnce :
      (d : Delivery) (x : System S) (message : Option String)
      → (d.service == v && eqb d.number q) ≡ false
      → IsOnce x
      → IsOnce (take_delivery b d x message)
  unfolding IsOnce take_delivery
  deliver_other-IsOnce d x none other h = h
  deliver_other-IsOnce d x (some m) other (inl quiet) = inl (rw other (omega (arith, quiet)))
  deliver_other-IsOnce d x (some m) other (inr (once, gone)) = inr (
    rw other (omega (arith, once)),
    if_both IsGone _ _ _ (ack-IsGone x.server d.service d.number gone) gone,
  )

  -- the delivery of a message that is kept
  deliver_kept-IsOnce :
      (d : Delivery) (x : System S) (m : String)
      → d.service ≡ v
      → d.number ≡ q
      → b.pending x.server v q ≡ some m
      → acks_in_all v q x.log ≡ 0
      → IsOnce (take_delivery b d x (some m))
  unfolding IsOnce take_delivery IsGone
  deliver_kept-IsOnce d x m su sp here quiet =
      let same : (d.service == v && eqb d.number q) ≡ true =
        ground (arith, eq_iff d.service v, eqb_iff d.number q) in
      elim (Bool-cases (was_acked (fetched b d x.server m) (round_of b d x.server m))) [
        | inl acks ↦
            rw (same, acks)
              (inr (
                omega (
                  arith,
                  quiet,
                  was_once (fetched b d x.server m) (round_of b d x.server m) acks
                      (fetched_acks b d x.server m),
                ),
                (
                  rw (← su, ← sp) (numbers.acked x.server d.service d.number),
                  rw (numbers.ack x.server d.service d.number) (numbers.low x.server v q m here),
                ),
              ))
        | inr kept ↦
            rw (same, kept)
              (inl (
                omega (
                  arith,
                  quiet,
                  not_acked (fetched b d x.server m) (round_of b d x.server m) kept,
                )))
      ]

  deliver_same-IsOnce :
      (d : Delivery) (x : System S) (message : Option String)
      → d.service ≡ v
      → d.number ≡ q
      → b.pending x.server v q ≡ message
      → IsOnce x
      → IsOnce (take_delivery b d x message)
  unfolding IsOnce take_delivery IsGone
  deliver_same-IsOnce d x none su sp here h = h
  deliver_same-IsOnce d x (some m) su sp here (inl quiet) =
      deliver_kept-IsOnce d x m su sp here quiet
  deliver_same-IsOnce d x (some m) su sp here (inr (once, gone)) = absurd (cc)

  do_action-IsOnce : (o : Occurrence) (x : System S) → IsOnce x → IsOnce (do_action b o x)
  unfolding IsOnce do_action
  do_action-IsOnce (publishes e) x (inl quiet) = inl quiet
  do_action-IsOnce (publishes e) x (inr (once, gone)) =
      inr (once, publish_event-keeps b.js IsGone-IsKept x.server e gone)
  do_action-IsOnce (delivers d) x h = elim (same_message d.service v d.number q) [
    | inl (su, sp) ↦
        deliver_same-IsOnce d x (b.pending x.server d.service d.number) su sp (rw (su, sp) refl) h
    | inr other ↦ deliver_other-IsOnce d x (b.pending x.server d.service d.number) other h
  ]
  do_action-IsOnce (drops u p) x (inl quiet) = inl (omega (arith, quiet))
  do_action-IsOnce (drops u p) x (inr (once, gone)) =
      inr (omega (arith, once), drop-IsGone x.server u p gone)

  run-IsOnce :
      (occurrences : List Occurrence) (x : System S) → IsOnce x → IsOnce (run b occurrences x)
  unfolding run
  run-IsOnce [] x h = h
  run-IsOnce (o ∷ occurrences) x h =
      run-IsOnce occurrences (do_action b o x) (do_action-IsOnce o x h)

  -- In any sequence of publications, deliveries and drops, where messages are delivered again as
  -- often as the server likes, the calls of `Ack` for a message of a service, by the filtered
  -- fetcher and by the sender, are at most one, if every acknowledgement takes effect. The server numbers and keeps messages as it promises.
  pub run_acks_once :
      (occurrences : List Occurrence) (s : S)
      → acks_in_all v q (run b occurrences (record { server = s; log = [] })).log ≤ 1
  unfolding IsOnce
  run_acks_once occurrences s =
      elim (run-IsOnce occurrences (record { server = s; log = [] }) (inl refl)) [
        | inl quiet ↦ omega (arith, quiet)
        | inr (once, gone) ↦ omega (arith, once)
      ]
