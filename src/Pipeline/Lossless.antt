-- ===== src/Pipeline/Lossless.antt =====
-- What a run does to a message that the server keeps for a service.
use kigeon.Prelude.{
  if_both, ◌≡◌, ◌∙◌, ◌⊎◌, inl, inr, ℕ, String, false, ◌&&◌, Option, none, some, List, [], ◌∷◌,
  arith, ◌==◌, eqb, eqb_iff, eq_iff, All, Any, Bool-cases,
}
use kigeon.EventQueue.Publish.Preserving.{IsKept, publish_event-keeps}
use kigeon.Loki.Sender.Delivery.{IsForeign}
use kigeon.Pipeline.Delivered.{IsFair, fetched-IsFair}
use kigeon.Pipeline.{
  Broker, Delivery, Occurrence, publishes, delivers, drops, System, fetched, take_delivery,
  do_action, run, Settles,
}

-- no error from outside wraps the package's own `errRejected`
abbrev pub IsForeignTo : Occurrence → Type 0
IsForeignTo (delivers d) = IsForeign d.outside
IsForeignTo _ = Unit

-- What the program relies on: a call of the server that is not about a message keeps it.
pub record Keeps {S : Type 0} (b : Broker S) : Type 0 where
  pub publish :
      (s : S) (subject text id : String) (v : String) (q : ℕ) (kept : String)
      → b.pending s v q ≡ some kept
      → b.pending (b.js.publish s subject text id).1 v q ≡ some kept
  pub put :
      (s : S) (k : String) (v : String) (q : ℕ) → b.pending (b.js.put s k).1 v q ≡ b.pending s v q
  pub ack :
      (s : S) (u v : String) (p q : ℕ)
      → (u == v && eqb p q) ≡ false
      → b.pending (b.ack s u p).1 v q ≡ b.pending s v q
  pub drop :
      (s : S) (u v : String) (p q : ℕ)
      → (u == v && eqb p q) ≡ false
      → b.pending (b.drop s u p) v q ≡ b.pending s v q

-- the same message, or another one
pub same_message : (u v : String) (p q : ℕ) → (((u ≡ v) × (p ≡ q)) ⊎ ((u == v && eqb p q) ≡ false))
same_message u v p q = elim (Bool-cases (u == v && eqb p q)) [
  | inl same ↦ inl (ground (arith, eq_iff u v, eqb_iff p q))
  | inr other ↦ inr other
]

module _ {S : Type 0} (b : Broker S) (keeps : Keeps b) where
  -- The message is still kept, or the log says why it is not.
  abbrev pub IsSafe : String → ℕ → String → System S → Type 0
  IsSafe v q text x =
      (b.pending x.server v q ≡ some text) ⊎ Any (Settles b.unmarshal v q text) x.log

  pending-IsKept :
      (v : String) (q : ℕ) (text : String) → IsKept b.js (λ s. b.pending s v q ≡ some text)
  pending-IsKept v q text = record {
    publish = λ s subject message id h. keeps.publish s subject message id v q text h;
    put = λ s k h. keeps.put s k v q ∙ h;
  }

  module _ (v : String) (q : ℕ) (text : String) where
    deliver_other :
        (d : Delivery) (x : System S) (message : Option String)
        → (d.service == v && eqb d.number q) ≡ false
        → b.pending x.server v q ≡ some text
        → IsSafe v q text (take_delivery b d x message)
    unfolding take_delivery
    deliver_other d x none other h = inl h
    deliver_other d x (some m) other h = inl (
        if_both (λ s. b.pending s v q ≡ some text) _ _ _
          (keeps.ack x.server d.service v d.number q other ∙ h) h)

    -- the log's entry of a delivery settles the message if nothing else did
    fair-IsSafe :
        (d : Delivery) (x : System S) (m : String) (foreign : IsForeign d.outside)
        → d.service ≡ v
        → d.number ≡ q
        → m ≡ text
        → b.pending x.server v q ≡ some text
        → IsFair d foreign
            (b.ack x.server d.service d.number).0
            (b.unmarshal m)
            (fetched b d x.server m)
        → IsSafe v q text (take_delivery b d x (some m))
    unfolding take_delivery IsFair
    fair-IsSafe d x m foreign su sp same h (inl quiet) = inl (rw quiet h)
    fair-IsSafe d x m foreign su sp same h (inr (acks, (e, decoded, done))) =
        inr (inl (su, sp, acks, (e, rw (← same) decoded, done)))

    deliver_same :
        (d : Delivery) (x : System S) (message : Option String)
        → IsForeign d.outside
        → d.service ≡ v
        → d.number ≡ q
        → message ≡ some text
        → b.pending x.server v q ≡ some text
        → IsSafe v q text (take_delivery b d x message)
    deliver_same d x none foreign su sp here h = cc
    deliver_same d x (some m) foreign su sp here h =
        fair-IsSafe d x m foreign su sp (cc) h (fetched-IsFair b d foreign x.server m)

    -- What was settled stays so, since the log only grows.
    take_delivery-logged :
        (d : Delivery) (x : System S) (message : Option String)
        → Any (Settles b.unmarshal v q text) x.log
        → Any (Settles b.unmarshal v q text) (take_delivery b d x message).log
    unfolding take_delivery
    take_delivery-logged d x none h = h
    take_delivery-logged d x (some m) h = inr h

    do_action-logged :
        (a : Occurrence) (x : System S)
        → Any (Settles b.unmarshal v q text) x.log
        → Any (Settles b.unmarshal v q text) (do_action b a x).log
    unfolding do_action
    do_action-logged (publishes e) x h = h
    do_action-logged (delivers d) x h =
        take_delivery-logged d x (b.pending x.server d.service d.number) h
    do_action-logged (drops u p) x h = inr h

    do_action-pending :
        (a : Occurrence) (x : System S)
        → IsForeignTo a
        → b.pending x.server v q ≡ some text
        → IsSafe v q text (do_action b a x)
    unfolding do_action
    do_action-pending (publishes e) x foreign h =
        inl (publish_event-keeps b.js (pending-IsKept v q text) x.server e h)
    do_action-pending (delivers d) x foreign h = elim (same_message d.service v d.number q) [
      | inl (su, sp) ↦
          deliver_same d x (b.pending x.server d.service d.number) foreign su sp (rw (su, sp) h) h
      | inr other ↦ deliver_other d x (b.pending x.server d.service d.number) other h
    ]
    do_action-pending (drops u p) x foreign h = elim (same_message u v p q) [
      | inl same ↦ inr (inl same)
      | inr other ↦ inl (keeps.drop x.server u v p q other ∙ h)
    ]

    do_action-IsSafe :
        (a : Occurrence) (x : System S)
        → IsForeignTo a
        → IsSafe v q text x
        → IsSafe v q text (do_action b a x)
    do_action-IsSafe a x foreign (inl kept) = do_action-pending a x foreign kept
    do_action-IsSafe a x foreign (inr settled) = inr (do_action-logged a x settled)

    pub run-IsSafe :
        (occurrences : List Occurrence) (x : System S)
        → All IsForeignTo occurrences
        → IsSafe v q text x
        → IsSafe v q text (run b occurrences x)
    unfolding run
    run-IsSafe [] x foreign safe = safe
    run-IsSafe (a ∷ occurrences) x foreign safe =
        run-IsSafe occurrences (do_action b a x) foreign.1 (do_action-IsSafe a x foreign.0 safe)

    -- No message is lost: a message that the server keeps for a service is, after any sequence of
    -- publications, deliveries and drops, still kept for it, or the log has a drop of the message, or
    -- a delivery of it that was acknowledged and whose event the namespace filter rejects, or the
    -- hook skips, by its answer or by failing under `onError: skip`, or for which one request was
    -- made, which Loki answered with a 2xx status or with 400, or the sender is in dry-run mode.
    -- The server keeps a message over a call that is not about it, and no error from outside wraps
    -- `errRejected`.
    pub run_lossless :
        (occurrences : List Occurrence) (s : S)
        → All IsForeignTo occurrences
        → b.pending s v q ≡ some text
        → let x = run b occurrences (record { server = s; log = [] }) in
          (b.pending x.server v q ≡ some text) ⊎ Any (Settles b.unmarshal v q text) x.log
    run_lossless occurrences s foreign h =
        run-IsSafe occurrences (record { server = s; log = [] }) foreign (inl h)
