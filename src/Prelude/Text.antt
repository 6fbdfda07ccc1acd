-- ===== src/Prelude/Text.antt =====
-- Text: Go's `strings.TrimSpace`, `utf8.RuneCountInString` and SQL's `trim`, on texts as code points.
use Prim.Native.Nat.{ℕ, zero, suc, ◌+◌, ◌≤◌}
use Prim.Native.Char.{code}
use Prim.Native.Nat.{Ordering}
use Prim.Native.String.{String, compare}
use mathlib.Core.Path.{◌≡◌, refl, ap}
use mathlib.Core.Bool.{Bool, true, false, ◌&&◌, ◌||◌}
use native.Mathlib.Omega.{arith}
use progo_a2a.Prelude.Tests.{◌==◌, leb, if◌then◌else◌}

-- `unicode.IsSpace`.
unfoldable pub is_space : ℕ → Bool
is_space c =
    (leb 9 c && leb c 13)
    || c == 32
    || c == 0x85
    || c == 0xa0
    || c == 0x1680
    || (leb 0x2000 c && leb c 0x200a)
    || c == 0x2028
    || c == 0x2029
    || c == 0x202f
    || c == 0x205f
    || c == 0x3000

abbrev pub is_empty : String → Bool
is_empty String.[] = true
is_empty (String.◌∷◌ c s) = false

-- The number of runes.
unfoldable pub rune_count : String → ℕ
rune_count String.[] = 0
rune_count (String.◌∷◌ c s) = suc (rune_count s)

trim_left : (ℕ → Bool) → String → String
trim_left p String.[] = String.[]
trim_left p (String.◌∷◌ c s) =
    let rest = trim_left p s in if p (code c) then rest else String.◌∷◌ c s

trim_right : (ℕ → Bool) → String → String
trim_right p String.[] = String.[]
trim_right p (String.◌∷◌ c s) =
    let rest = trim_right p s in
    if is_empty rest && p (code c) then String.[] else String.◌∷◌ c rest

unfoldable pub trim_by : (ℕ → Bool) → String → String
unfolding trim_left trim_right
trim_by p s = trim_right p (trim_left p s)

-- `strings.TrimSpace`.
unfoldable pub trim_space : String → String
unfolding trim_by is_space
trim_space s = trim_by is_space s

-- PostgreSQL's `trim(s)` takes off the character U+0020 alone.
unfoldable pub sql_trim : String → String
unfolding trim_by
sql_trim s = trim_by (λ c. c == 32) s

-- `strings.TrimSpace(s) == ""`.
unfoldable pub is_blank : String → Bool
unfolding trim_space
is_blank s = is_empty (trim_space s)

abbrev to_lower : ℕ → ℕ
to_lower c = if leb b'A' c && leb c b'Z' then c + 32 else c

-- `strings.EqualFold`, with the folding of the ASCII letters.
unfoldable pub equal_fold : String → String → Bool
equal_fold String.[] String.[] = true
equal_fold (String.◌∷◌ c s) (String.◌∷◌ d t) =
    to_lower (code c) == to_lower (code d) && equal_fold s t
equal_fold _ _ = false

-- `<` on texts.
unfoldable pub str_lt : String → String → Bool
str_lt s t = elim (compare s t) [ Ordering.lt ↦ true | _ ↦ false ]

unfoldable pub is_prefix : String → String → Bool
is_prefix String.[] t = true
is_prefix (String.◌∷◌ c s) String.[] = false
is_prefix (String.◌∷◌ c s) (String.◌∷◌ d t) = code c == code d && is_prefix s t

-- `strings.Contains(t, s)`.
unfoldable pub str_contains : String → String → Bool
unfolding is_prefix
str_contains String.[] s = is_empty s
str_contains (String.◌∷◌ c t) s = is_prefix s (String.◌∷◌ c t) || str_contains t s

-- Whether a character passes a test, and whether all do.
unfoldable pub str_any : (ℕ → Bool) → String → Bool
str_any p String.[] = false
str_any p (String.◌∷◌ c s) = p (code c) || str_any p s

unfoldable pub str_all : (ℕ → Bool) → String → Bool
str_all p String.[] = true
str_all p (String.◌∷◌ c s) = p (code c) && str_all p s

-- `strings.TrimPrefix(s, p)` for a prefix of `s`, which `after` takes off.
unfoldable pub after : String → String → String
after String.[] s = s
after (String.◌∷◌ c p) String.[] = String.[]
after (String.◌∷◌ c p) (String.◌∷◌ d s) = after p s

unfoldable pub trim_prefix : String → String → String
unfolding is_prefix after
trim_prefix p s = if is_prefix p s then after p s else s

-- `s + t`, by the characters of `s`.
abbrev pub prepend : String → String → String
prepend String.[] t = t
prepend (String.◌∷◌ c s) t = String.◌∷◌ c (prepend s t)

pub prepend_assoc : (s t u : String) → prepend (prepend s t) u ≡ prepend s (prepend t u)
prepend_assoc String.[] t u = refl
prepend_assoc (String.◌∷◌ c s) t u = ap (String.◌∷◌ c) (prepend_assoc s t u)

pub prepend-nil : (s : String) → prepend s String.[] ≡ s
prepend-nil String.[] = refl
prepend-nil (String.◌∷◌ c s) = ap (String.◌∷◌ c) (prepend-nil s)

-- The first `n` characters.
unfoldable pub take_chars : ℕ → String → String
take_chars zero s = String.[]
take_chars (suc n) String.[] = String.[]
take_chars (suc n) (String.◌∷◌ c s) = String.◌∷◌ c (take_chars n s)

-- What trimming leaves.
abbrev all_chars : (ℕ → Bool) → String → Bool
all_chars p String.[] = true
all_chars p (String.◌∷◌ c s) = p (code c) && all_chars p s

module _ (p : ℕ → Bool) where
  all_chars-trim_left : (s : String) → all_chars p (trim_left p s) ≡ true → all_chars p s ≡ true
  unfolding trim_left
  all_chars-trim_left String.[] h = refl
  all_chars-trim_left (String.◌∷◌ c s) h = ground (arith, h, all_chars-trim_left s)

  all_chars-trim_right : (s : String) → is_empty (trim_right p s) ≡ true → all_chars p s ≡ true
  unfolding trim_right
  all_chars-trim_right String.[] h = refl
  all_chars-trim_right (String.◌∷◌ c s) h = ground (arith, h, all_chars-trim_right s)

  trim_left-all_chars : (s : String) → all_chars p s ≡ true → trim_left p s ≡ String.[]
  unfolding trim_left
  trim_left-all_chars String.[] h = refl
  trim_left-all_chars (String.◌∷◌ c s) h = ground (arith, h, trim_left-all_chars s)

  rune_count-trim_left : (s : String) → rune_count (trim_left p s) ≤ rune_count s
  unfolding trim_left rune_count
  rune_count-trim_left String.[] = omega arith
  rune_count-trim_left (String.◌∷◌ c s) = ground (arith, rune_count-trim_left s)

  rune_count-trim_right : (s : String) → rune_count (trim_right p s) ≤ rune_count s
  unfolding trim_right rune_count
  rune_count-trim_right String.[] = omega arith
  rune_count-trim_right (String.◌∷◌ c s) = ground (arith, rune_count-trim_right s)

all_chars-is_space : (s : String) → all_chars (λ c. c == 32) s ≡ true → all_chars is_space s ≡ true
unfolding is_space
all_chars-is_space String.[] h = refl
all_chars-is_space (String.◌∷◌ c s) h = ground (arith, h, all_chars-is_space s)

pub rune_count-sql_trim : (s : String) → rune_count (sql_trim s) ≤ rune_count s
unfolding sql_trim trim_by
rune_count-sql_trim s = omega (
  arith,
  rune_count-trim_right (λ c. c == 32) (trim_left (λ c. c == 32) s),
  rune_count-trim_left (λ c. c == 32) s,
)

-- What is blank to PostgreSQL is blank to Go.
pub is_blank-sql_trim : (s : String) → is_empty (sql_trim s) ≡ true → is_blank s ≡ true
unfolding sql_trim trim_by is_blank trim_space trim_right
is_blank-sql_trim s h =
    let blank : all_chars (λ c. c == 32) s ≡ true =
      all_chars-trim_left (λ c. c == 32) s
        (all_chars-trim_right (λ c. c == 32) (trim_left (λ c. c == 32) s) h) in
    rw (trim_left-all_chars is_space s (all_chars-is_space s blank)) refl

trimmed-all_chars :
    (p : ℕ → Bool) (s : String)
    → all_chars p (trim_right p s) ≡ true
    → is_empty (trim_right p s) ≡ true
unfolding trim_right
trimmed-all_chars p String.[] h = refl
trimmed-all_chars p (String.◌∷◌ c s) h = ground (arith, h, trimmed-all_chars p s)

-- What is trimmed and not empty has a character other than spaces.
pub is_empty-sql_trim :
    (s : String) → is_empty (sql_trim (sql_trim s)) ≡ true → is_empty (sql_trim s) ≡ true
unfolding sql_trim trim_by
is_empty-sql_trim s h =
    let t = trim_right (λ c. c == 32) (trim_left (λ c. c == 32) s) in
    trimmed-all_chars (λ c. c == 32) (trim_left (λ c. c == 32) s)
      (all_chars-trim_left (λ c. c == 32) t
        (all_chars-trim_right (λ c. c == 32) (trim_left (λ c. c == 32) t) h))
