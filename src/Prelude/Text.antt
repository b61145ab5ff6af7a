-- ===== src/Prelude/Text.antt =====
-- Texts as the source builds them (`+`, `fmt.Sprintf`, `strconv.Itoa`), and signed integers.
use Prim.Native.Nat.{ℕ, zero, suc, ◌+◌, ◌-◌, ◌/◌, ◌%◌}
use Prim.Native.String.{String, slice, ◌++◌}
use mathlib.Core.List.{List, [], ◌∷◌}
use kigeon.Prelude.Tests.{ltb, leb, if◌then◌else◌}

-- s + t on Go's strings
abbrev pub append : String → String → String
append s t = s ++ t

abbrev pub concat : List String → String
concat [] = ""
concat (s ∷ l) = s ++ concat l

-- the decimal digit of a number below 10
unfoldable pub digit : ℕ → String
digit n = slice "0123456789" n (n + 1)

-- the decimal digits of `n`, for fuel above `n`
unfoldable pub digits : ℕ → ℕ → String
unfolding digit
digits zero n = ""
digits (suc fuel) n =
    let rest = digits fuel (n / 10) in if ltb n 10 then digit n else rest ++ digit (n % 10)

unfoldable pub format_nat : ℕ → String
unfolding digits
format_nat n = digits (suc n) n

-- `negsuc n` is -(n + 1).
pub data ℤ : Type 0 where
  pos : ℕ → ℤ
  negsuc : ℕ → ℤ

-- a - b, as an integer
abbrev pub sub_ℕ : ℕ → ℕ → ℤ
sub_ℕ a b = if leb b a then pos (a - b) else negsuc (b - a - 1)

-- `strconv.Itoa` and `strconv.FormatInt(_, 10)`
unfoldable pub itoa : ℤ → String
unfolding format_nat
itoa (pos n) = format_nat n
itoa (negsuc n) = "-" ++ format_nat (suc n)
