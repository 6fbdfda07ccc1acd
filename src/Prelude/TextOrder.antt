-- ===== src/Prelude/TextOrder.antt =====
-- The order of the texts, `<`: it is strict, transitive, and total.
use Prim.Native.Nat.{ℕ, Ordering, compare as compare_ℕ}
use Prim.Native.Char.{Char, code}
use Prim.Native.String.{String, compare, then as first_of}
use Prim.Native.String.compare
use mathlib.Core.Bool.{Bool, true, false, ◌&&◌, ◌||◌}
use mathlib.Core.Path.{◌≡◌, refl, ap, ◌∙◌}
use native.Mathlib.Omega.{arith}
use text.Mathlib.TextEquality.{Char-path}
use progo_a2a.Prelude.Tests.{ltb, ◌==◌}
use progo_a2a.Prelude.Text.{str_lt}

abbrev is_lt : Ordering → Bool
is_lt Ordering.lt = true
is_lt Ordering.eq = false
is_lt Ordering.gt = false

first_of-is_lt :
    (a b : ℕ) (r : Ordering) → is_lt (first_of (compare_ℕ a b) r) ≡ (ltb a b || (a == b && is_lt r))
first_of-is_lt a b r = ground (arith)

str_lt-is_lt : (s t : String) → str_lt s t ≡ is_lt (compare s t)
unfolding str_lt
str_lt-is_lt s t = go (compare s t)
  where
    go : (o : Ordering) → (elim o as (λ _. Bool) [ Ordering.lt ↦ true | _ ↦ false ]) ≡ is_lt o
    go Ordering.lt = refl
    go Ordering.eq = refl
    go Ordering.gt = refl

str_lt-cons :
    (c d : Char) (s t : String)
    → str_lt (String.◌∷◌ c s) (String.◌∷◌ d t)
      ≡ (ltb (code c) (code d) || (code c == code d && str_lt s t))
str_lt-cons c d s t =
    rw (str_lt-is_lt (String.◌∷◌ c s) (String.◌∷◌ d t), compare.cons-cons c d s t, str_lt-is_lt s t)
      (first_of-is_lt (code c) (code d) (compare s t))

str_lt-nil : (s : String) → str_lt s String.[] ≡ false
str_lt-nil String.[] = rw (str_lt-is_lt String.[] String.[]) refl
str_lt-nil (String.◌∷◌ c s) =
    rw (str_lt-is_lt (String.◌∷◌ c s) String.[], compare.cons-nil c s) refl

nil-str_lt : (d : Char) (t : String) → str_lt String.[] (String.◌∷◌ d t) ≡ true
nil-str_lt d t = rw (str_lt-is_lt String.[] (String.◌∷◌ d t), compare.nil-cons d t) refl

pub str_lt_trans : (s t u : String) → str_lt s t ≡ true → str_lt t u ≡ true → str_lt s u ≡ true
str_lt_trans s String.[] u h k = ground (arith, h, str_lt-nil s)
str_lt_trans s (String.◌∷◌ d t) String.[] h k = ground (arith, k, str_lt-nil (String.◌∷◌ d t))
str_lt_trans String.[] (String.◌∷◌ d t) (String.◌∷◌ e u) h k = nil-str_lt e u
str_lt_trans (String.◌∷◌ c s) (String.◌∷◌ d t) (String.◌∷◌ e u) h k =
    ground (
      arith,
      h,
      k,
      str_lt-cons c d s t,
      str_lt-cons d e t u,
      str_lt-cons c e s u,
      str_lt_trans s t u,
    )

pub str_lt_asym : (s t : String) → str_lt s t ≡ true → str_lt t s ≡ false
str_lt_asym s String.[] h = ground (arith, h, str_lt-nil s)
str_lt_asym String.[] (String.◌∷◌ d t) h = str_lt-nil (String.◌∷◌ d t)
str_lt_asym (String.◌∷◌ c s) (String.◌∷◌ d t) h =
    ground (arith, h, str_lt-cons c d s t, str_lt-cons d c t s, str_lt_asym s t)

pub str_lt_total : (s t : String) → str_lt s t ≡ false → str_lt t s ≡ false → s ≡ t
str_lt_total String.[] String.[] h k = refl
str_lt_total String.[] (String.◌∷◌ d t) h k = ground (arith, h, nil-str_lt d t)
str_lt_total (String.◌∷◌ c s) String.[] h k = ground (arith, k, nil-str_lt c s)
str_lt_total (String.◌∷◌ c s) (String.◌∷◌ d t) h k =
    ap (λ x. String.◌∷◌ x s)
      (Char-path c d (ground (arith, h, k, str_lt-cons c d s t, str_lt-cons d c t s)))
    ∙ ap (String.◌∷◌ d) (
        str_lt_total s t (ground (arith, h, k, str_lt-cons c d s t, str_lt-cons d c t s))
          (ground (arith, h, k, str_lt-cons c d s t, str_lt-cons d c t s)))
