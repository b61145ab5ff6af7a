-- ===== src/Loki/Loop.antt =====
-- Run of internal/eventsender/loki/loki.go: the sender's rounds until the context is done.
use kigeon.Prelude.{
  ℕ, ◌+◌, ◌≡◌, refl, sym, ap, subst, Bool, true, false, Option, none, some, List, [], ◌∷◌, ◌++◌,
  arith, count, count-append, if◌then◌else◌, inl, inr,
}
use kigeon.Errors.{Error, Result, ok, err, Result-cases}
use kigeon.Metrics.{sent, filtered, skipped, rejected}
use kigeon.Loki.Sender.{Sender, Outside, Effect, process_event}
use kigeon.Loki.Sender.Results.{
  is_acked, is_counted, is_failure, is_result, results_add_up, process_event-IsSettled,
  process_event_idle,
}

-- an error, if there is one, before those of the later rounds
abbrev log : Option Error → List Error → List Error
log none errors = errors
log (some e) errors = e ∷ errors

-- `Run`, given what each round meets until the context is done: the effects of the rounds, and the
-- errors, which are only logged
unfoldable pub run : Sender → List Outside → List Effect × List Error
run s [] = ([], [])
run s (w ∷ worlds) =
    let (effects, errors) = run s worlds in
    ((process_event s w).0 ++ effects, log (process_event s w).1 errors)

abbrev pub is_ok {ℓ} : {A : Type ℓ} → Result A → Bool
is_ok (ok a) = true
is_ok (err e) = false

-- `Fetch` gave an event.
abbrev pub has_event : Outside → Bool
has_event w = is_ok w.fetched

record Totals (n : ℕ) (l : List Effect) : Type 0 where
  results : count is_counted l ≡ n
  unfiltered : count (is_result filtered) l ≡ 0
  settled : count is_acked l + count is_failure l ≡ n

process_event-Totals :
    (s : Sender) (w : Outside) → Totals (if has_event w then 1 else 0) (process_event s w).0
process_event-Totals s w = elim (Result-cases w.fetched) [
  | inl (event, h) ↦
      let t = process_event-IsSettled s w event h in
      subst (λ b. Totals (if b then 1 else 0) (process_event s w).0) (sym (ap is_ok h))
        (record {
          results = t.one_result;
          unfiltered = t.not_filtered;
          settled = t.acked_or_failed;
        })
  | inr (e, h) ↦
      subst (λ b. Totals (if b then 1 else 0) (process_event s w).0) (sym (ap is_ok h))
        (subst (Totals 0) (sym (process_event_idle s w e h).0)
          (record { results = refl; unfiltered = refl; settled = refl }))
]

append-Totals : (m n : ℕ) (l k : List Effect) → Totals m l → Totals n k → Totals (m + n) (l ++ k)
append-Totals m n l k s t = record {
  results = omega (arith, s.results, t.results, count-append is_counted l k);
  unfiltered = omega (arith, s.unfiltered, t.unfiltered, count-append (is_result filtered) l k);
  settled =
      omega (arith, s.settled, t.settled, count-append is_acked l k, count-append is_failure l k);
}

run-Totals : (s : Sender) (worlds : List Outside) → Totals (count has_event worlds) (run s worlds).0
unfolding run
run-Totals s [] = record { results = refl; unfiltered = refl; settled = refl }
run-Totals s (w ∷ worlds) =
    append-Totals _ _ (process_event s w).0 (run s worlds).0 (process_event-Totals s w)
      (run-Totals s worlds)

-- However long the sender runs and whatever it meets: the counters of the events that it sent,
-- skipped, had rejected and failed to send add up to the number of events that it fetched, and the
-- acknowledgements and the failures do so as well.
pub run_totals :
    (s : Sender) (worlds : List Outside)
    → (count (is_result sent) (run s worlds).0
          + count (is_result skipped) (run s worlds).0
          + count (is_result rejected) (run s worlds).0
          + count is_failure (run s worlds).0
        ≡ count has_event worlds)
      × (count is_acked (run s worlds).0 + count is_failure (run s worlds).0
          ≡ count has_event worlds)
run_totals s worlds =
    let t = run-Totals s worlds in
    (omega (arith, t.results, t.unfiltered, results_add_up (run s worlds).0), t.settled)
