-- ===== src/EventQueue/Deduplication.antt =====
-- No event is published twice while the key-value store remembers it.
use kigeon.Prelude.{
  ℕ, ◌+◌, ◌≤◌, ◌≡◌, refl, subst, ◌⊎◌, String, Bool, true, false, Option, none, some, List, [], ◌∷◌,
  arith, count, ◌==◌, eq_iff, if◌then◌else◌, inl, inr, ◌&&◌, true, Option-cases, Bool-cases,
}
use kigeon.Errors.{Error, Result, ok, err}
use kigeon.Kubernetes.{Event}
use kigeon.Metrics.{PublishResult, published}
use kigeon.EventQueue.Identifier.{event_identifier}
use kigeon.EventQueue.Publish.Preserving.{IsKept, publish_event-keeps}
use kigeon.EventQueue.Publish.{
  JetStream, Publishing, subject_name, is_key_not_found, stored, record_published, publish_data,
  publish_new, publish_event,
}

-- What the program relies on: within the lifetime of its entries the key-value store finds a key
-- that was put without an error, whatever is published and put after it.
pub record Remembers {S : Type 0} (js : JetStream S) : Type 0 where
  pub put_found : (s : S) (k : String) → (js.put s k).0 ≡ none → js.get (js.put s k).1 k ≡ none
  pub put_keeps : (s : S) (j k : String) → js.get s k ≡ none → js.get (js.put s j).1 k ≡ none
  pub publish_keeps :
      (s : S) (subject text id k : String)
      → js.get s k ≡ none
      → js.get (js.publish s subject text id).1 k ≡ none

abbrev pub is_published : PublishResult → Bool
is_published published = true
is_published _ = false

module _ {S : Type 0} (js : JetStream S) where
  -- how often events with the identifier `id` are published when `events` are handed over in turn
  unfoldable pub times_published : String → S → List Event → ℕ
  times_published id s [] = 0
  times_published id s (e ∷ events) =
      (if event_identifier e == id then count is_published (publish_event js s e).counted else 0)
      + times_published id (publish_event js s e).state events

  -- how often recording the identifier `id` fails on the way, which is logged as a warning
  unfoldable pub times_warned : String → S → List Event → ℕ
  times_warned id s [] = 0
  times_warned id s (e ∷ events) =
      (if event_identifier e == id && (publish_event js s e).warned then 1 else 0)
      + times_warned id (publish_event js s e).state events

  -- the parts of one call in `times_published` and `times_warned`
  abbrev share : String → S → Event → ℕ
  share id s e =
      if event_identifier e == id then count is_published (publish_event js s e).counted else 0

  abbrev warning : String → S → Event → ℕ
  warning id s e = if event_identifier e == id && (publish_event js s e).warned then 1 else 0

  module _ (r : Remembers js) where
    -- what is found stays found
    found-IsKept : (k : String) → IsKept js (λ s. js.get s k ≡ none)
    found-IsKept k = record {
      publish = λ s subject text id h. r.publish_keeps s subject text id k h;
      put = λ s j h. r.put_keeps s j k h;
    }

    -- nothing was published, or one message whose identifier is found from then on unless
    -- recording it failed
    IsFound : String → Publishing S → Type 0
    IsFound id p =
        (count is_published p.counted ≡ 0)
        ⊎ ((count is_published p.counted ≡ 1) × ((js.get p.state id ≡ none) ⊎ (p.warned ≡ true)))

    record_published-IsFound :
        (id : String) (answer : Result Bool × S) → IsFound id (record_published js id answer)
    unfolding record_published IsFound
    record_published-IsFound id (err e, s) = inl refl
    record_published-IsFound id (ok true, s) = inl refl
    record_published-IsFound id (ok false, s) = elim (Option-cases (js.put s id).0) [
      | inl recorded ↦ inr (refl, inl (r.put_found s id recorded))
      | inr (e, broken) ↦ inr (refl, inr (rw broken))
    ]

    publish_data-IsFound :
        (s : S) (id : String) (text : Result String) → IsFound id (publish_data js s id text)
    unfolding publish_data IsFound
    publish_data-IsFound s id (err e) = inl refl
    publish_data-IsFound s id (ok text) =
        record_published-IsFound id (js.publish s subject_name text id)

    publish_new-IsFound :
        (s : S) (id : String) (ev : Event) (found : Option Error)
        → IsFound id (publish_new js s id ev found)
    unfolding publish_new IsFound
    publish_new-IsFound s id ev none = inl refl
    publish_new-IsFound s id ev (some e) = elim (Bool-cases (is_key_not_found e)) [
      | inl missing ↦ rw missing (publish_data-IsFound s id (js.marshal ev))
      | inr broken ↦ rw broken (inl refl)
    ]

    publish_event-IsFound :
        (s : S) (event : Event) → IsFound (event_identifier event) (publish_event js s event)
    unfolding publish_event event_identifier stored
    publish_event-IsFound s event =
        publish_new-IsFound s (event_identifier event) (stored event)
          (js.get s (event_identifier event))

    found-publish_event :
        (s : S) (event : Event)
        → js.get s (event_identifier event) ≡ none
        → count is_published (publish_event js s event).counted ≡ 0
    unfolding publish_event stored event_identifier
    found-publish_event s event h = rw h

    share_found : (id : String) (s : S) (e : Event) → js.get s id ≡ none → share id s e ≡ 0
    share_found id s e h = elim (Bool-cases (event_identifier e == id)) [
      | inl same ↦
          rw same (found-publish_event s e (rw ((eq_iff (event_identifier e) id).0 same) h))
      | inr differs ↦ rw differs
    ]

    share_cases :
        (id : String) (s : S) (e : Event)
        → (share id s e ≡ 0)
          ⊎ ((share id s e ≡ 1)
              × ((js.get (publish_event js s e).state id ≡ none) ⊎ (warning id s e ≡ 1)))
    unfolding IsFound
    share_cases id s e = elim (Bool-cases (event_identifier e == id)) [
      | inl same ↦ rw same (
          shared (
            subst (λ k. IsFound k (publish_event js s e)) ((eq_iff (event_identifier e) id).0 same)
              (publish_event-IsFound s e)))
      | inr differs ↦ rw differs (inl refl)
    ]
      where
        shared :
            IsFound id (publish_event js s e)
            → (count is_published (publish_event js s e).counted ≡ 0)
              ⊎ ((count is_published (publish_event js s e).counted ≡ 1)
                  × ((js.get (publish_event js s e).state id ≡ none)
                      ⊎ (◌≡◌ {A = ℕ} (if true && (publish_event js s e).warned then 1 else 0) 1)))
        shared (inl unpublished) = inl unpublished
        shared (inr (once, inl found)) = inr (once, inl found)
        shared (inr (once, inr warns)) = inr (once, inr (rw warns))

    times_published_found :
        (id : String) (s : S) (events : List Event)
        → js.get s id ≡ none
        → times_published id s events ≡ 0
    unfolding times_published
    times_published_found id s [] h = refl
    times_published_found id s (e ∷ events) h = omega (
      arith,
      share_found id s e h,
      times_published_found id (publish_event js s e).state events
          (publish_event-keeps js (found-IsKept id) s e h),
    )

    -- Whatever events are handed over, repeated ones included, and whatever the server answers: if
    -- the key-value store remembers what was put, the events with one identifier are published at
    -- most once, and once more for each time that recording the identifier failed.
    pub times_published-le :
        (id : String) (s : S) (events : List Event)
        → times_published id s events ≤ 1 + times_warned id s events
    unfolding times_published times_warned
    times_published-le id s [] = omega arith
    times_published-le id s (e ∷ events) =
        let rest = (publish_event js s e).state in
        elim (share_cases id s e) [
          | inl unpublished ↦ omega (arith, unpublished, times_published-le id rest events)
          | inr (once, inl found) ↦ omega (arith, once, times_published_found id rest events found)
          | inr (once, inr warns) ↦ omega (arith, once, warns, times_published-le id rest events)
        ]
