-- ===== src/Adapter/Paths.antt =====
-- `normalizeJSONPath` of pkg/adapter/custom.go, and that its loop ends.
use progo_a2a.Prelude.{
  ℕ, zero, suc, ◌≤◌, ◌<◌, String, ◌≡◌, refl, arith, Bool, true, false, ◌&&◌, ◌||◌, not, ◌==◌, leb,
  Option, none, some, Bool-cases, inl, inr, is_empty, rune_count, str_contains, is_prefix, after,
  trim_space, trim_prefix, str_append, if◌then◌else◌,
}
use Prim.Native.Char.{Char, code}

-- The longest start of a text whose characters pass a test, and the rest.
unfoldable pub span : (ℕ → Bool) → String → String × String
span p String.[] = ("", "")
span p (String.◌∷◌ c s) =
    let (a, b) = span p s in if p (code c) then (String.◌∷◌ c a, b) else ("", String.◌∷◌ c s)

abbrev pub is_quote : ℕ → Bool
is_quote c = c == 39 || c == b'"'

-- `]` after a group, which is not empty; `quoted` when a quote stands before the bracket.
unfoldable pub closed_group : Bool → String × String → Option (String × String)
closed_group quoted (inner, String.[]) = none
closed_group false (inner, String.◌∷◌ c rest) =
    if not (is_empty inner) && code c == b']' then some (inner, rest) else none
closed_group true (inner, String.◌∷◌ q String.[]) = none
closed_group true (inner, String.◌∷◌ q (String.◌∷◌ c rest)) =
    if not (is_empty inner) && is_quote (code q) && code c == b']' then some (inner, rest) else none

-- `jsonPathPropRegex` and `jsonPathIndexRegex` at the start of a text: the group, and what follows the match.
unfoldable pub prop_at : String → Option (String × String)
unfolding span closed_group
prop_at (String.◌∷◌ c (String.◌∷◌ q s)) =
    if code c == b'[' && is_quote (code q)
    then closed_group true (span (λ d. not (is_quote d)) s)
    else none
prop_at _ = none

unfoldable pub index_at : String → Option (String × String)
unfolding span closed_group
index_at (String.◌∷◌ c s) =
    if code c == b'[' then closed_group false (span (λ d. leb b'0' d && leb d b'9') s) else none
index_at _ = none

-- `ReplaceAllString(p, ".$1")`; each match and each other character takes fuel, of which there is a unit for each
-- character.
unfoldable pub replace_groups : (String → Option (String × String)) → ℕ → String → String
replace_groups match_at zero s = s
replace_groups match_at (suc fuel) String.[] = ""
replace_groups match_at (suc fuel) (String.◌∷◌ c s) = elim (match_at (String.◌∷◌ c s)) [
  | some (inner, rest) ↦ str_append "." (str_append inner (replace_groups match_at fuel rest))
  | none ↦ String.◌∷◌ c (replace_groups match_at fuel s)
]

abbrev is_dot : Char → Bool
is_dot c = code c == b'.'

-- `strings.ReplaceAll(p, "..", ".")`
unfoldable pub replace_dots : String → String
replace_dots String.[] = ""
replace_dots (String.◌∷◌ c String.[]) = String.◌∷◌ c ""
replace_dots (String.◌∷◌ c (String.◌∷◌ d s)) =
    let both = replace_dots s in
    let one = replace_dots (String.◌∷◌ d s) in
    String.◌∷◌ c (if is_dot c && is_dot d then both else one)

-- The loop that replaces until there is no "..".
unfoldable pub squeeze_dots : ℕ → String → String
unfolding str_contains replace_dots
squeeze_dots zero p = p
squeeze_dots (suc fuel) p = elim (str_contains p "..") [
  | true ↦ squeeze_dots fuel (replace_dots p)
  | false ↦ p
]

-- What follows the two prefixes.
unfoldable pub normalize_groups : String → String
unfolding trim_prefix replace_groups prop_at index_at squeeze_dots rune_count
normalize_groups p =
    let p = replace_groups prop_at (rune_count p) p in
    let p = replace_groups index_at (rune_count p) p in
    trim_prefix "." (squeeze_dots (suc (rune_count p)) p)

unfoldable pub normalize_json_path : String → String
unfolding trim_space trim_prefix normalize_groups
normalize_json_path path =
    let p = trim_space path in
    if is_empty p then "" else normalize_groups (trim_prefix "$" (trim_prefix "$." p))

abbrev has_dots : String → Bool
has_dots p = str_contains p ".."

-- Each turn of the loop shortens the text.
replace_dots-le : (s : String) → rune_count (replace_dots s) ≤ rune_count s
unfolding replace_dots rune_count
replace_dots-le String.[] = omega arith
replace_dots-le (String.◌∷◌ c String.[]) = omega arith
replace_dots-le (String.◌∷◌ c (String.◌∷◌ d s)) =
    ground (arith, replace_dots-le s, replace_dots-le (String.◌∷◌ d s))

replace_dots-lt : (s : String) → has_dots s ≡ true → rune_count (replace_dots s) < rune_count s
unfolding replace_dots rune_count str_contains is_prefix
replace_dots-lt String.[] h = absurd (cc h)
replace_dots-lt (String.◌∷◌ c String.[]) h = absurd (ground (arith, h))
replace_dots-lt (String.◌∷◌ c (String.◌∷◌ d s)) h =
    ground (arith, h, replace_dots-le s, replace_dots-lt (String.◌∷◌ d s))

squeeze_dots-ends :
    (fuel : ℕ) (p : String) → rune_count p < fuel → has_dots (squeeze_dots fuel p) ≡ false
unfolding squeeze_dots
squeeze_dots-ends zero p h = absurd (omega arith)
squeeze_dots-ends (suc fuel) p h = elim (Bool-cases (has_dots p)) [
  | inr e ↦ rw (squeeze_dots, e) e
  | inl e ↦
      let shorter = replace_dots-lt p e in
      rw (squeeze_dots, e) (squeeze_dots-ends fuel (replace_dots p) (omega (arith, shorter, h)))
]

or-false : (a b : Bool) → (a || b) ≡ false → (a ≡ false) × (b ≡ false)
or-false false b h = (refl, h)
or-false true b h = absurd (cc h)

and-false : (a b : Bool) → (a && b) ≡ false → (a && true) ≡ true → b ≡ false
and-false true b h e = h
and-false false b h e = absurd (cc e)

-- A text without two dots in a row, and without a dot at its start.
abbrev pub Tidy : String → Type 0
Tidy p = (has_dots p ≡ false) × (is_prefix "." p ≡ false)

trim_dot : (p : String) → has_dots p ≡ false → Tidy (trim_prefix "." p)
unfolding str_contains is_prefix trim_prefix after
trim_dot String.[] h = (refl, refl)
trim_dot (String.◌∷◌ c s) h = elim (Bool-cases (is_prefix "." (String.◌∷◌ c s))) [
  | inr e ↦ rw e (h, e)
  | inl e ↦
      let (two, later) = or-false (is_prefix ".." (String.◌∷◌ c s)) (has_dots s) h in
      rw e (later, and-false (b'.' == code c) (is_prefix "." s) two e)
]

normalize_groups-Tidy : (p : String) → Tidy (normalize_groups p)
unfolding normalize_groups
normalize_groups-Tidy p =
    let q =
      replace_groups index_at (rune_count (replace_groups prop_at (rune_count p) p))
        (replace_groups prop_at (rune_count p) p) in
    trim_dot (squeeze_dots (suc (rune_count q)) q)
      (squeeze_dots-ends (suc (rune_count q)) q (omega arith))

-- A normalized path has no two dots in a row and does not start with one, whatever path is given: the loop has
-- turns enough.
pub normalize_json_path-Tidy : (path : String) → Tidy (normalize_json_path path)
unfolding normalize_json_path
normalize_json_path-Tidy path =
    by_trimmed (is_empty (trim_space path)) (trim_prefix "$" (trim_prefix "$." (trim_space path)))
  where
    by_trimmed : (e : Bool) (p : String) → Tidy (if e then "" else normalize_groups p)
    by_trimmed true p = (refl, refl)
    by_trimmed false p = normalize_groups-Tidy p
