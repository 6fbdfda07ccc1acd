-- ===== src/Adapter/Replies/Words.antt =====
-- What the methods TranslateResponse of pkg/adapter read: statuses by their words, and tests of JSON values.
use progo_a2a.Prelude.{
  ℕ, ◌+◌, String, Bool, true, false, ◌&&◌, ◌==◌, leb, Option, none, some, List, [], ◌∷◌, any,
  str_append, if◌then◌else◌,
}
use Prim.Native.Char.{code}
use progo_a2a.A2a.{
  Json, TaskStatus, status_pending, status_in_progress, status_completed, status_failed,
  status_canceled,
}
use progo_a2a.Config.{CustomMapping}

-- `unicode.ToLower`, as far as its result is an ASCII letter: two other letters, U+0130 and U+212A, give one.
unfoldable pub to_lower_char : ℕ → ℕ
to_lower_char c =
    if leb b'A' c && leb c b'Z'
    then c + 32
    else if c == 0x130
    then b'i'
    else if c == 0x212a
    then b'k'
    else c

-- `strings.ToLower(s) == t`, for a text `t` of ASCII characters.
unfoldable pub is_lower_of : String → String → Bool
unfolding to_lower_char
is_lower_of String.[] String.[] = true
is_lower_of (String.◌∷◌ c s) (String.◌∷◌ d t) = to_lower_char (code c) == code d && is_lower_of s t
is_lower_of _ _ = false

abbrev pub reads_as : List String → String → Bool
reads_as names s = any (is_lower_of s) names

abbrev pub is_null : Json → Bool
is_null Json.null = true
is_null _ = false

-- The adapters, the custom one with the mapping of its agent, and the errors of a translation.
pub data Format : Type 0 where
  openai langgraph crewai autogen : Format
  custom : Option CustomMapping → Format

pub data ResponseError (E : Type 0) : Type 0 where
  missing_mapping : ResponseError E
  unreadable : E → ResponseError E

abbrev pub is_failed : TaskStatus → Bool
is_failed status_failed = true
is_failed _ = false

abbrev pub is_array : Json → Bool
is_array (Json.array items) = true
is_array _ = false

abbrev pub is_object : Json → Bool
is_object (Json.object fields) = true
is_object _ = false

abbrev pub last_of : {A : Type 0} → List A → Option A
last_of [] = none
last_of (x ∷ []) = some x
last_of (x ∷ y ∷ xs) = last_of (y ∷ xs)

unfoldable pub named_status : String → TaskStatus
unfolding is_lower_of
named_status s =
    if reads_as ("error" ∷ "failed" ∷ []) s
    then status_failed
    else if reads_as ("canceled" ∷ "cancelled" ∷ []) s
    then status_canceled
    else if reads_as ("in_progress" ∷ "running" ∷ []) s
    then status_in_progress
    else if reads_as ("pending" ∷ []) s
    then status_pending
    else status_completed

abbrev pub or_text : Option String → String → String
or_text none other = other
or_text (some s) other = s

unfoldable pub crewai_failure : String → String
unfolding is_lower_of
crewai_failure status =
    str_append "crewai execution status: "
      (if is_lower_of status "failed" then "failed" else "error")
