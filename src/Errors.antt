-- ===== src/Errors.antt =====
-- Go's `error` values: what `errors.New`, `fmt.Errorf` and the sentinels of the packages build, and
-- how `errors.Is` reads them. A message is kept as its format and its arguments, since nothing in
-- the program looks into a message.
use kigeon.Prelude.{
  ◌≡◌, refl, subst, if◌then◌else◌, ◌⊎◌, inl, inr, String, Bool, true, false, ◌||◌, List, Option,
  none, some,
}

-- The errors that the program compares with: its own `ErrNoMessage`, `errRejected`, `errSkip` and
-- `errPodNotFound`, and those of other packages (`not_found` is what `k8serrors.IsNotFound`
-- finds, `server_closed` is `http.ErrServerClosed`).
pub data Sentinel : Type 0 where
  no_message rejected skip pod_not_found : Sentinel
  canceled deadline_exceeded key_not_found not_found server_closed : Sentinel

abbrev pub same : Sentinel → Sentinel → Bool
same no_message no_message = true
same rejected rejected = true
same skip skip = true
same pod_not_found pod_not_found = true
same canceled canceled = true
same deadline_exceeded deadline_exceeded = true
same key_not_found key_not_found = true
same not_found not_found = true
same server_closed server_closed = true
same _ _ = false

-- `errorf` is an error that wraps none, `wrap` has one `%w`, `wrap_both` is `"%w: %w"`.
pub data Error : Type 0 where
  sentinel : Sentinel → Error
  errorf : String → List String → Error
  wrap : String → List String → Error → Error
  wrap_both : Error → Error → Error

-- `errors.Is`
unfoldable pub is : Error → Sentinel → Bool
is (sentinel s) t = same s t
is (errorf format args) t = false
is (wrap format args e) t = is e t
is (wrap_both d e) t = is d t || is e t

-- A result with an error, `(A, error)`.
pub data Result {ℓ} (T : Type ℓ) : Type ℓ where
  ok : T → Result T
  err : Error → Result T

-- going on with the value of a step that did not fail
infixl 6 ◌>>=◌
abbrev pub ◌>>=◌ {ℓ κ} : {T : Type ℓ} {U : Type κ} → Result T → (T → Result U) → Result U
◌>>=◌ (err e) next = err e
◌>>=◌ (ok value) next = next value

-- `if err != nil { return fmt.Errorf(format, args..., err) }`
abbrev pub wrap_err {ℓ} : {A : Type ℓ} → String → List String → Result A → Result A
wrap_err format args (ok a) = ok a
wrap_err format args (err e) = err (wrap format args e)

-- the same for a function that returns nothing but an error
abbrev pub wrap_option : String → List String → Option Error → Option Error
wrap_option format args none = none
wrap_option format args (some e) = some (wrap format args e)

pub Result-cases {ℓ} :
    {A : Type ℓ} (r : Result A) → ((a : A) × (r ≡ ok a)) ⊎ ((e : Error) × (r ≡ err e))
Result-cases (ok a) = inl (a, refl)
Result-cases (err e) = inr (e, refl)

-- what a call gives, if it gives no error, has the property
abbrev pub Good {ℓ κ} : {A : Type ℓ} → (A → Type κ) → Result A → Type κ
Good P (ok a) = P a
Good P (err e) = Unit

pub Good-ok {ℓ κ} : {A : Type ℓ} (P : A → Type κ) (r : Result A) (a : A) → Good P r → r ≡ ok a → P a
Good-ok P r a g e = subst (Good P) e g

pub Good-bind {ℓ κ μ ν} :
    {A : Type ℓ} {B : Type κ} (P : A → Type μ) (Q : B → Type ν) (r : Result A) (f : A → Result B)
    → Good P r
    → ((a : A) → P a → Good Q (f a))
    → Good Q (r >>= f)
Good-bind P Q (ok a) f g h = h a g
Good-bind P Q (err e) f g h = tt

pub Good-wrap {ℓ κ} :
    {A : Type ℓ} (P : A → Type κ) (format : String) (args : List String) (r : Result A)
    → Good P r
    → Good P (wrap_err format args r)
Good-wrap P format args (ok a) g = g
Good-wrap P format args (err e) g = g

pub Good-any {ℓ} : {A : Type ℓ} (r : Result A) → Good (λ a. Unit {0}) r
Good-any (ok a) = tt
Good-any (err e) = tt

pub Good-if {ℓ κ} :
    {A : Type ℓ} (P : A → Type κ) (b : Bool) (r q : Result A)
    → (b ≡ true → Good P r)
    → (b ≡ false → Good P q)
    → Good P (if b then r else q)
Good-if P true r q f g = f refl
Good-if P false r q f g = g refl
