-- ===== src/EventSender/FilteredFetcher.antt =====
-- internal/eventsender/filter.go: `filteredFetcher.Fetch`, over the answers that the wrapped fetcher
-- gives one after the other. The loop ends where the answers end: it waits for the next one.
use kigeon.Prelude.{
  ◌≡◌, refl, inl, inr, Bool-cases, Bool, true, false, Option, none, some, List, [], ◌∷◌, ◌++◌,
  arith, All, ap, sym, ◌∙◌, if◌then◌else◌,
}
use mathlib.Core.List.{append-nil}
use kigeon.Errors.{Error, wrap, Result, ok, err}
use kigeon.Kubernetes.{ObjectReference, Event}

-- an answer of the wrapped fetcher, and what `Ack` of its message would return
pub record Answer : Type 0 where
  pub result : Result Event
  pub ack : Option Error

-- what the loop does: `Ack` of a message, and counting it as filtered
pub data Effect : Type 0 where
  acked : Event → Effect
  counted_filtered : Effect

pub data Returned : Type 0 where
  event : Event → Returned
  error : Error → Returned
  waiting : Returned

pub record Fetch : Type 0 where
  pub effects : List Effect
  pub returned : Returned
  pub rest : List Answer

abbrev pub after : List Effect → Fetch → Fetch
after before f = record f { effects = before ++ f.effects }

-- an event that the filter rejects: it is acknowledged, and the loop goes on unless that fails
unfoldable pub skip_event : Event → Option Error → List Answer → Fetch → Fetch
skip_event e (some failure) rest more = record {
  effects = acked e ∷ [];
  returned = error (wrap "failed to acknowledge filtered event: %w" [] failure);
  rest = rest;
}
skip_event e none rest more = after (acked e ∷ counted_filtered ∷ []) more

-- one round of the loop, where `more` is the rest of the loop
unfoldable pub fetch_step :
    (ObjectReference → Bool) → Result Event → Option Error → List Answer → Fetch → Fetch
unfolding skip_event
fetch_step is_allowed (err e) ack rest more = record {
  effects = [];
  returned = error e;
  rest = rest;
}
fetch_step is_allowed (ok e) ack rest more =
    if is_allowed e.involved_object
    then record { effects = []; returned = event e; rest = rest }
    else skip_event e ack rest more

-- `filteredFetcher.Fetch`, where the filter is `IsAllowedForObject`
unfoldable pub fetch : (ObjectReference → Bool) → List Answer → Fetch
unfolding fetch_step
fetch is_allowed [] = record { effects = []; returned = waiting; rest = [] }
fetch is_allowed (a ∷ answers) =
    let more = fetch is_allowed answers in fetch_step is_allowed a.result a.ack answers more

-- the effects of the loop on events that it skips
abbrev pub skips : List Event → List Effect
skips [] = []
skips (e ∷ es) = acked e ∷ counted_filtered ∷ skips es

abbrev pub delivered : Event → Answer
delivered e = record { result = ok e; ack = none }

abbrev pub answers_of : List Event → List Answer
answers_of [] = []
answers_of (e ∷ es) = delivered e ∷ answers_of es

module _ (is_allowed : ObjectReference → Bool) where
  ended :
      (es : List Event) (r : Returned) (rest : List Answer)
      → after (skips es) (record { effects = []; returned = r; rest = rest })
        ≡ record { effects = skips es; returned = r; rest = rest }
  ended es r rest = rw (append-nil (skips es)) refl

  -- Events that the filter rejects and that can be acknowledged are passed over, each acknowledged
  -- and counted once and in order; what follows them decides the result.
  pub fetch-answers_of :
      (es : List Event) (answers : List Answer)
      → All (λ e. is_allowed e.involved_object ≡ false) es
      → fetch is_allowed (answers_of es ++ answers) ≡ after (skips es) (fetch is_allowed answers)
  unfolding fetch
  fetch-answers_of [] answers h = refl
  fetch-answers_of (e ∷ es) answers h = rw (h.0, fetch-answers_of es answers h.1)

  -- After events that the filter rejects and that are acknowledged, which are passed over, each
  -- acknowledged and counted once and in order, the loop ends at the first answer that is an error,
  -- which it returns; or an event that the filter lets pass, which it returns without
  -- acknowledging it; or a rejected event whose acknowledgement fails, with that error; and it takes
  -- no answer after it. Without such an answer it waits.
  pub fetch_ends :
      (es : List Event)
      → All (λ e. is_allowed e.involved_object ≡ false) es
      → (fetch is_allowed (answers_of es)
          ≡ record { effects = skips es; returned = waiting; rest = [] })
        × ((e : Error) (ack : Option Error) (rest : List Answer)
            → fetch is_allowed (answers_of es ++ record { result = err e; ack = ack } ∷ rest)
              ≡ record { effects = skips es; returned = error e; rest = rest })
        × ((e : Event) (ack : Option Error) (rest : List Answer)
            → is_allowed e.involved_object ≡ true
            → fetch is_allowed (answers_of es ++ record { result = ok e; ack = ack } ∷ rest)
              ≡ record { effects = skips es; returned = event e; rest = rest })
        × ((e : Event) (failure : Error) (rest : List Answer)
            → is_allowed e.involved_object ≡ false
            → fetch is_allowed
                (answers_of es ++ record { result = ok e; ack = some failure } ∷ rest)
              ≡ record {
                effects = skips es ++ acked e ∷ [];
                returned = error (wrap "failed to acknowledge filtered event: %w" [] failure);
                rest = rest;
              })
  unfolding fetch
  fetch_ends es h = (
    ap (fetch is_allowed) (sym (append-nil (answers_of es)))
        ∙ fetch-answers_of es [] h
        ∙ ended es waiting [],
    λ e ack rest. fetch-answers_of es _ h ∙ ended es (error e) rest,
    λ e ack rest pass. fetch-answers_of es _ h ∙ rw pass (ended es (event e) rest),
    λ e failure rest reject. fetch-answers_of es _ h ∙ rw reject refl,
  )

  -- An acknowledgement by the loop is of an event that the filter rejects.
  abbrev pub IsRejected : Effect → Type 0
  IsRejected (acked e) = is_allowed e.involved_object ≡ false
  IsRejected counted_filtered = Unit

  record IsHonest (f : Fetch) : Type 0 where
    rejected : All IsRejected f.effects
    passed : (e : Event) → f.returned ≡ event e → is_allowed e.involved_object ≡ true

  fetch_step-IsHonest :
      (r : Result Event) (ack : Option Error) (rest : List Answer) (more : Fetch)
      → IsHonest more
      → IsHonest (fetch_step is_allowed r ack rest more)
  unfolding fetch_step
  fetch_step-IsHonest (err e) ack rest more h = record { rejected = tt; passed = λ d same. cc }
  fetch_step-IsHonest (ok e) ack rest more h = elim (Bool-cases (is_allowed e.involved_object)) [
    | inl pass ↦ rw pass (record { rejected = tt; passed = λ d same. ground arith })
    | inr reject ↦ rw reject (skip ack reject)
  ]
    where
      skip :
          (a : Option Error)
          → is_allowed e.involved_object ≡ false
          → IsHonest (skip_event e a rest more)
      skip (some failure) reject = record { rejected = (reject, tt); passed = λ d same. cc }
      skip none reject = record { rejected = (reject, (tt, h.rejected)); passed = h.passed }

  fetch-IsHonest : (answers : List Answer) → IsHonest (fetch is_allowed answers)
  unfolding fetch
  fetch-IsHonest [] = record { rejected = tt; passed = λ d same. cc }
  fetch-IsHonest (a ∷ answers) =
      fetch_step-IsHonest a.result a.ack answers (fetch is_allowed answers) (fetch-IsHonest answers)

  -- Whatever the wrapped fetcher answers, the loop acknowledges only events that the filter
  -- rejects, and an event that it returns is one that the filter lets pass.
  pub fetch-IsRejected :
      (answers : List Answer)
      → All IsRejected (fetch is_allowed answers).effects
        × ((e : Event)
            → (fetch is_allowed answers).returned ≡ event e
            → is_allowed e.involved_object ≡ true)
  fetch-IsRejected answers = let h = fetch-IsHonest answers in (h.rejected, h.passed)
