-- ===== src/Metrics/Labels.antt =====
-- pkg/metrics/metrics.go: `escapeLabel`, and a reader of the values that it writes between quotes.
use Prim.Native.Char.{Char, code}
use Prim.Native.String.{String}
use text.Mathlib.TextEquality.{Char-path}
use progo_a2a.Prelude.{
  ℕ, ◌≡◌, refl, ap, ◌∙◌, arith, false, ◌==◌, Option, none, some, if◌then◌else◌, prepend, Bool-cases,
  inl, inr,
}

-- `strings.ReplaceAll(s, c, by)` for one character.
unfoldable pub replace_char : ℕ → String → String → String
replace_char c by String.[] = String.[]
replace_char c by (String.◌∷◌ d s) =
    let rest = replace_char c by s in if code d == c then prepend by rest else String.◌∷◌ d rest

-- `escapeLabel`
unfoldable pub escape_label : String → String
unfolding replace_char
escape_label s = replace_char 10 "\\n" (replace_char 34 "\\\"" (replace_char 92 "\\\\" s))

-- A value of the text format, up to its closing quote: a backslash escapes a backslash, a quote and `n`.
put_char : Char → Option (String × String) → Option (String × String)
put_char c none = none
put_char c (some (s, rest)) = some (String.◌∷◌ c s, rest)

unfoldable pub read_label : String → Option (String × String)
unfolding put_char
read_label String.[] = none
read_label (String.◌∷◌ c String.[]) = if code c == 34 then some (String.[], String.[]) else none
read_label (String.◌∷◌ c (String.◌∷◌ d s)) =
    let escaped = read_label s in
    let plain = read_label (String.◌∷◌ d s) in
    if code c == 34
    then some (String.[], String.◌∷◌ d s)
    else if code c == 10
    then none
    else if code c == 92
    then (if code d == 92
        then put_char d escaped
        else if code d == 34
        then put_char d escaped
        else if code d == 110
        then put_char "\n" escaped
        else none)
    else put_char c plain

-- One pass.
escaped : String → String
escaped String.[] = String.[]
escaped (String.◌∷◌ c s) =
    let rest = escaped s in
    if code c == 92
    then prepend "\\\\" rest
    else if code c == 34
    then prepend "\\\"" rest
    else if code c == 10
    then prepend "\\n" rest
    else String.◌∷◌ c rest

escape_label-escaped : (s : String) → escape_label s ≡ escaped s
unfolding escape_label replace_char escaped
escape_label-escaped String.[] = refl
escape_label-escaped (String.◌∷◌ c s) = elim (Bool-cases (code c == 92)) [
  | inl p ↦ rw p (ap (prepend "\\\\") (escape_label-escaped s))
  | inr p ↦ elim (Bool-cases (code c == 34)) [
    | inl q ↦ rw (p, q) (ap (prepend "\\\"") (escape_label-escaped s))
    | inr q ↦ elim (Bool-cases (code c == 10)) [
      | inl r ↦ rw (p, q, r) (ap (prepend "\\n") (escape_label-escaped s))
      | inr r ↦ rw (p, q, r) (ap (λ t. String.◌∷◌ c t) (escape_label-escaped s))
    ]
  ]
]

read-escape :
    (t s rest : String) (c d : Char)
    → code d ≡ code c
    → read_label t ≡ some (s, rest)
    → put_char d (read_label t) ≡ some (String.◌∷◌ c s, rest)
unfolding put_char
read-escape t s rest c d h e =
    ap (put_char d) e ∙ ap (λ x. some (String.◌∷◌ x s, rest)) (Char-path d c h)

read_label-plain :
    (c : Char) (t s rest : String)
    → code c == 92 ≡ false
    → code c == 34 ≡ false
    → code c == 10 ≡ false
    → read_label t ≡ some (s, rest)
    → read_label (String.◌∷◌ c t) ≡ some (String.◌∷◌ c s, rest)
unfolding read_label put_char
read_label-plain c String.[] s rest p q r e = ground (arith, e)
read_label-plain c (String.◌∷◌ d t) s rest p q r e = rw (q, r, p, e) refl

read_label-escaped :
    (s rest : String) → read_label (prepend (escaped s) (String.◌∷◌ "\"" rest)) ≡ some (s, rest)
unfolding read_label escaped put_char
read_label-escaped String.[] String.[] = refl
read_label-escaped String.[] (String.◌∷◌ d rest) = refl
read_label-escaped (String.◌∷◌ c s) rest = elim (Bool-cases (code c == 92)) [
  | inl p ↦ rw p (
      read-escape (prepend (escaped s) (String.◌∷◌ "\"" rest)) s rest c "\\" (ground (arith, p))
        (read_label-escaped s rest))
  | inr p ↦ elim (Bool-cases (code c == 34)) [
    | inl q ↦
        rw (p, q)
          (read-escape (prepend (escaped s) (String.◌∷◌ "\"" rest)) s rest c "\""
            (ground (arith, q)) (read_label-escaped s rest))
    | inr q ↦ elim (Bool-cases (code c == 10)) [
      | inl r ↦
          rw (p, q, r)
            (read-escape (prepend (escaped s) (String.◌∷◌ "\"" rest)) s rest c "\n"
              (ground (arith, r)) (read_label-escaped s rest))
      | inr r ↦ rw (p, q, r) (read_label-plain c _ s rest p q r (read_label-escaped s rest))
    ]
  ]
]

-- A label that `escapeLabel` has written between quotes reads back, whatever quotes, backslashes and line ends it
-- has: the reader stops at the closing quote, with the label itself and the text after the quote.
pub read_label-escape_label :
    (s rest : String)
    → read_label (prepend (escape_label s) (String.◌∷◌ "\"" rest)) ≡ some (s, rest)
read_label-escape_label s rest = rw (escape_label-escaped s) (read_label-escaped s rest)
