-- ===== src/Metrics/Counting.antt =====
-- What the calls of the metrics of internal/metrics count, over an abstract Prometheus client.
use kigeon.Prelude.{
  ◌≡◌, refl, ℕ, ◌+◌, String, Bool, true, false, ◌&&◌, Option, none, some, List, [], ◌∷◌, All, arith,
  count, count-append, length, eqb, if◌then◌else◌, ◌==◌, All-append,
}
use kigeon.Metrics.Collectors.{Vector, Call, calls_of}

-- What the program uses of the client, over the state `S` of the registry: what `Inc` or `Observe`
-- of the child with some label values does, and the number of times that it was done.
pub record Prometheus (S : Type 0) : Type 0 where
  pub add : S → Vector → List String → S
  pub value : S → Vector → List String → ℕ

unfoldable pub equal_texts : List String → List String → Bool
equal_texts [] [] = true
equal_texts (a ∷ l) [] = false
equal_texts [] (b ∷ m) = false
equal_texts (a ∷ l) (b ∷ m) = a == b && equal_texts l m

-- a call of the vector with this name and these label values
unfoldable pub is_call : Vector → List String → Call → Bool
unfolding equal_texts
is_call vector values c = c.vector.name == vector.name && equal_texts c.values values

-- A child counts its own calls, and no others.
pub record Counts {S : Type 0} (p : Prometheus S) : Type 0 where
  pub add :
      (s : S) (c : Call) (vector : Vector) (values : List String)
      → p.value (p.add s c.vector c.values) vector values
        ≡ (if is_call vector values c then 1 else 0) + p.value s vector values

-- `WithLabelValues` panics if the number of values is not that of the labels.
abbrev pub fits : Call → Bool
fits c = eqb (length c.vector.labels) (length c.values)

module _ {S : Type 0} (p : Prometheus S) where
  -- the calls in order, or nothing if one of them panics
  unfoldable pub make_calls : List Call → S → Option S
  make_calls [] s = some s
  make_calls (c ∷ calls) s =
      let rest = make_calls calls (p.add s c.vector c.values) in if fits c then rest else none

  -- No call panics, and each child has counted its calls.
  pub record HasCounted (calls : List Call) (s : S) : Type 0 where
    pub after : S
    pub made : make_calls calls s ≡ some after
    pub counts :
        (vector : Vector) (values : List String)
        → p.value after vector values
          ≡ count (is_call vector values) calls + p.value s vector values

  -- Calls that fit do not panic.
  pub make_calls-HasCounted :
      Counts p → (calls : List Call) (s : S) → All (λ c. fits c ≡ true) calls → HasCounted calls s
  unfolding make_calls
  make_calls-HasCounted h [] s fit = record {
    after = s;
    made = refl;
    counts = λ vector values. omega arith;
  }
  make_calls-HasCounted h (c ∷ calls) s fit =
      let rest = make_calls-HasCounted h calls (p.add s c.vector c.values) fit.1 in
      record {
        after = rest.after;
        made = rw fit.0 rest.made;
        counts = λ vector values. omega (arith, rest.counts vector values, h.add s c vector values);
      }

pub All-calls_of {ℓ} :
    {A : Type ℓ} (P : Call → Type 0) (f : A → List Call)
    → ((a : A) → All P (f a))
    → (l : List A) → All P (calls_of f l)
unfolding calls_of
All-calls_of P f each [] = tt
All-calls_of P f each (a ∷ l) = All-append P (f a) (calls_of f l) (each a) (All-calls_of P f each l)

-- what one event adds to the calls, and what a sequence of events does
module _ {ℓ} {A : Type ℓ} (is_counted : Call → Bool) (f : A → List Call) (q : A → Bool) where
  pub count-calls_of :
      ((a : A) → count is_counted (f a) ≡ (if q a then 1 else 0))
      → (l : List A) → count is_counted (calls_of f l) ≡ count q l
  unfolding calls_of
  count-calls_of each [] = refl
  count-calls_of each (a ∷ l) =
      omega (arith, count-append is_counted (f a) (calls_of f l), each a, count-calls_of each l)

pub count-and {ℓ} :
    {A : Type ℓ} (c : Bool) (q : A → Bool) (l : List A)
    → count (λ a. c && q a) l ≡ (if c then count q l else 0)
count-and true q l = refl
count-and false q [] = refl
count-and false q (a ∷ l) = omega (arith, count-and false q l)
