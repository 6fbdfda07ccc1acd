-- ===== src/Prelude/Results.antt =====
-- A result or an error, for functions of two results whose second is a Go `error`.
use mathlib.Core.Path.{◌≡◌, refl}
use mathlib.Core.Bool.{Bool, true, false}
use mathlib.Core.Option.{Option, none, some}

pub data Result {ℓ} (E A : Type ℓ) : Type ℓ where
  ok : A → Result E A
  err : E → Result E A

module _ {ℓ} {E A B : Type ℓ} where
  infixl 5 ◌>>=◌
  abbrev pub ◌>>=◌ : Result E A → (A → Result E B) → Result E B
  ok a >>= f = f a
  err e >>= f = err e

-- The early return `if test { return e }`.
abbrev pub fail_if : {E : Type 0} → Bool → E → Result E Unit
fail_if true e = err e
fail_if false e = ok tt

-- `fmt.Errorf` around the error of a part.
abbrev pub map_err : {E F A : Type 0} → (E → F) → Result E A → Result F A
map_err f (ok a) = ok a
map_err f (err e) = err (f e)

-- A value, or the error for there being none.
abbrev pub of_option : {E A : Type 0} → E → Option A → Result E A
of_option e none = err e
of_option e (some a) = ok a

-- What a result without an error says of its parts.
pub bind-ok :
    {E A B : Type 0} (r : Result E A) (f : A → Result E B) {b : B}
    → (r >>= f) ≡ ok b
    → (a : A) × (r ≡ ok a) × (f a ≡ ok b)
bind-ok (ok a) f h = (a, refl, h)
bind-ok (err e) f h = absurd (cc h)

pub then-ok :
    {E B : Type 0} (r : Result E Unit) (k : Result E B) {b : B}
    → (r >>= λ _. k) ≡ ok b
    → (r ≡ ok tt) × (k ≡ ok b)
then-ok (ok tt) k h = (refl, h)
then-ok (err e) k h = absurd (cc h)

-- A check before the rest of a function.
pub passed :
    {E B : Type 0} (t : Bool) (e : E) (k : Result E B) {b : B}
    → (fail_if t e >>= λ _. k) ≡ ok b
    → (t ≡ false) × (k ≡ ok b)
passed true e k h = absurd (cc h)
passed false e k h = (refl, h)

pub map_err-ok :
    {E F A : Type 0} (f : E → F) (r : Result E A) {a : A} → map_err f r ≡ ok a → r ≡ ok a
map_err-ok f (ok b) h = cc h
map_err-ok f (err e) h = absurd (cc h)

pub of_option-ok : {E A : Type 0} (e : E) (o : Option A) {a : A} → of_option e o ≡ ok a → o ≡ some a
of_option-ok e none h = absurd (cc h)
of_option-ok e (some b) h = cc h
