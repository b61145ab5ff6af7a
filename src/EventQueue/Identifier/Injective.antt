-- ===== src/EventQueue/Identifier/Injective.antt =====
-- Different events have different identifiers.
use Prim.Native.Char.{code}
use Prim.Native.String.{String, ◌++◌}
use text.Mathlib.TextLemmas.{nil-append, cons-append, append-nil, append_cancel_right}
use kigeon.Prelude.{
  ℕ, zero, suc, ◌+◌, ◌-◌, ◌*◌, ◌/◌, ◌%◌, ◌<◌, ◌≡◌, refl, sym, ◌∙◌, ap, Bool, false, ◌||◌, arith,
  eqb, ltb, if◌then◌else◌, digit, digits, format_nat, pos, itoa, inl, inr, Bool-cases,
}
use kigeon.Kubernetes.{Event}
use kigeon.EventQueue.Identifier.{event_identifier}

-- the number that decimal digits stand for, read after `acc`
value : ℕ → String → ℕ
value acc String.[] = acc
value acc (String.◌∷◌ c s) = value (acc * 10 + code c - 48) s

value-append : (acc : ℕ) (s t : String) → value acc (s ++ t) ≡ value (value acc s) t
unfolding value
value-append acc String.[] t = rw nil-append
value-append acc (String.◌∷◌ c s) t = rw cons-append (value-append (acc * 10 + code c - 48) s t)

-- no character of a text is a dash
has_dash : String → Bool
has_dash String.[] = false
has_dash (String.◌∷◌ c s) = eqb (code c) b'-' || has_dash s

has_dash-append : (s t : String) → has_dash (s ++ t) ≡ (has_dash s || has_dash t)
unfolding has_dash
has_dash-append String.[] t = rw nil-append
has_dash-append (String.◌∷◌ c s) t = rw cons-append (ground (arith, has_dash-append s t))

-- what follows the last dash of a text, and `cur` if there is none
after_dash : String → String → String
after_dash cur String.[] = cur
after_dash cur (String.◌∷◌ c s) = after_dash (if eqb (code c) b'-' then s else cur) s

after_dash_none : (cur s : String) → has_dash s ≡ false → after_dash cur s ≡ cur
unfolding after_dash has_dash
after_dash_none cur String.[] h = refl
after_dash_none cur (String.◌∷◌ c s) h = elim (Bool-cases (eqb (code c) b'-')) [
  | inl dash ↦ ground arith
  | inr plain ↦ rw plain (after_dash_none cur s (ground arith))
]

after_dash-append : (s cur t : String) → has_dash t ≡ false → after_dash cur (s ++ ("-" ++ t)) ≡ t
unfolding after_dash
after_dash-append String.[] cur t h =
    rw (nil-append, cons-append, nil-append) (after_dash_none t t h)
after_dash-append (String.◌∷◌ c s) cur t h = rw cons-append (after_dash-append s _ t h)

record HasWorth (acc d : ℕ) : Type 0 where
  worth : value acc (digit d) ≡ acc * 10 + d
  plain : has_dash (digit d) ≡ false

digit-HasWorth : (acc d : ℕ) → d < 10 → HasWorth acc d
unfolding digit value has_dash
digit-HasWorth acc zero h = record { worth = omega arith; plain = refl }
digit-HasWorth acc (suc zero) h = record { worth = omega arith; plain = refl }
digit-HasWorth acc (suc (suc zero)) h = record { worth = omega arith; plain = refl }
digit-HasWorth acc (suc (suc (suc zero))) h = record { worth = omega arith; plain = refl }
digit-HasWorth acc (suc (suc (suc (suc zero)))) h = record { worth = omega arith; plain = refl }
digit-HasWorth acc (suc (suc (suc (suc (suc zero))))) h = record {
  worth = omega arith;
  plain = refl;
}
digit-HasWorth acc (suc (suc (suc (suc (suc (suc zero)))))) h = record {
  worth = omega arith;
  plain = refl;
}
digit-HasWorth acc (suc (suc (suc (suc (suc (suc (suc zero))))))) h = record {
  worth = omega arith;
  plain = refl;
}
digit-HasWorth acc (suc (suc (suc (suc (suc (suc (suc (suc zero)))))))) h = record {
  worth = omega arith;
  plain = refl;
}
digit-HasWorth acc (suc (suc (suc (suc (suc (suc (suc (suc (suc zero))))))))) h = record {
  worth = omega arith;
  plain = refl;
}
digit-HasWorth acc (suc (suc (suc (suc (suc (suc (suc (suc (suc (suc n)))))))))) h =
    absurd (omega arith)

value-digits : (fuel n : ℕ) → n < fuel → value 0 (digits fuel n) ≡ n
unfolding digits
value-digits zero n h = elim h [ ]
value-digits (suc fuel) n h = elim (Bool-cases (ltb n 10)) [
  | inl small ↦ rw small ((digit-HasWorth 0 n (ground arith)).worth ∙ omega arith)
  | inr large ↦
      rw (large, value-append, value-digits fuel (n / 10) (ground arith))
        ((digit-HasWorth (n / 10) (n % 10) (omega arith)).worth ∙ omega arith)
]

has_dash-digits : (fuel n : ℕ) → has_dash (digits fuel n) ≡ false
unfolding digits has_dash
has_dash-digits zero n = refl
has_dash-digits (suc fuel) n = elim (Bool-cases (ltb n 10)) [
  | inl small ↦ rw small ((digit-HasWorth 0 n (ground arith)).plain)
  | inr large ↦
      rw (large, has_dash-append, has_dash-digits fuel (n / 10))
        ((digit-HasWorth 0 (n % 10) (omega arith)).plain)
]

identifier-parts :
    (u v : String) (m n : ℕ)
    → u ++ ("-" ++ (format_nat m ++ "")) ≡ v ++ ("-" ++ (format_nat n ++ ""))
    → (u ≡ v) × (m ≡ n)
unfolding format_nat
identifier-parts u v m n h =
    let h' : u ++ ("-" ++ digits (suc m) m) ≡ v ++ ("-" ++ digits (suc n) n) =
      simp append-nil at h in
    let same_digits : digits (suc m) m ≡ digits (suc n) n =
      sym (after_dash-append u "" _ (has_dash-digits (suc m) m))
      ∙ ap (after_dash "") h'
      ∙ after_dash-append v "" _ (has_dash-digits (suc n) n) in
    (
      append_cancel_right u v ("-" ++ digits (suc m) m)
          (h' ∙ ap (λ t. v ++ ("-" ++ t)) (sym same_digits)),
      sym (value-digits (suc m) m (omega arith))
          ∙ ap (value 0) same_digits
          ∙ value-digits (suc n) n (omega arith),
    )

-- Two events whose counts are not negative have the same identifier only if they have the same UID
-- and the same count, whatever characters a UID has.
pub event_identifier_injective :
    (a b : Event) (m n : ℕ)
    → a.count ≡ pos m
    → b.count ≡ pos n
    → event_identifier a ≡ event_identifier b
    → (a.uid ≡ b.uid) × (m ≡ n)
unfolding event_identifier itoa
event_identifier_injective a b m n ha hb h = identifier-parts a.uid b.uid m n (simp (ha, hb) at h)
