-- ===== src/StringMatcher.antt =====
-- python-pscheduler/pscheduler/pscheduler/stringmatcher.py. `lower` is that of ASCII texts.
pub mod Cases
use Prim.Native.Char.{Char, code}
use Prim.Native.String
use Prim.Native.String.{slice}
use text.Mathlib.Text.{find?}
use pscheduler.Common.{
  ℕ, ◌-◌, String, Bool, true, false, not, ◌&&◌, concat, str_eq, leb, Option, none, some, [], ◌∷◌,
  Result, ok, err, value_error, ◌>>=◌, ◌>>◌, if◌then◌else◌,
}
use pscheduler.Json.{Json, obj, Fields, end, field, get, get_item, as_text, as_bool, as_dict}
use pscheduler.World.{World}

alphabet : String
alphabet = "abcdefghijklmnopqrstuvwxyz"

unfoldable pub lower_char : Char → String
unfolding alphabet
lower_char c =
    if leb b'A' (code c) && leb (code c) b'Z'
    then slice alphabet (code c - 65) (code c - 64)
    else String.◌∷◌ c String.[]

-- `s.lower()`.
unfoldable pub lower : String → String
unfolding lower_char
lower String.[] = String.[]
lower (String.◌∷◌ c s) = concat (lower_char c ∷ lower s ∷ [])

-- `t in s`.
unfoldable pub is_in : String → String → Bool
is_in t s = elim (find? s t) [ none ↦ false | some i ↦ true ]

pub data Style : Type 0 where
  exact contains regex : Style

pub record StringMatcher : Type 0 where
  pub case_insensitive : Bool
  pub invert : Bool
  pub style : Style
  pub pattern : String

flag : String → Fields → Result Bool
flag key m = elim (get key m) [ none ↦ ok false | some v ↦ as_bool v ]

-- The schema lets through these three styles.
style_of : String → Result Style
style_of s =
    if str_eq s "exact"
    then ok exact
    else if str_eq s "contains"
    then ok contains
    else if str_eq s "regex"
    then ok regex
    else err (value_error "Invalid match: ")

-- The pattern as it is kept: compiled if it is an expression, and in lower case if a text is
-- compared without regard to case.
kept : World → Style → Bool → String → Result String
kept w regex insensitive text = elim (w.regex_error text) [
  | none ↦ ok text
  | some message ↦ err (value_error (concat ("Invalid regular expression: " ∷ message ∷ [])))
]
kept w exact insensitive text = ok (if insensitive then lower text else text)
kept w contains insensitive text = ok (if insensitive then lower text else text)

unfoldable pub construct : World → Json → Result StringMatcher
unfolding flag style_of kept
construct w match = elim (w.json_validate "StringMatch" (obj (field "match" match end))) [
  | some message ↦ err (value_error (concat ("Invalid match: " ∷ message ∷ [])))
  | none ↦ do
    m ← as_dict match
    insensitive ← flag "case-insensitive" m
    invert ← flag "invert" m
    s ← get_item match "style"
    name ← as_text s
    style ← style_of name
    t ← get_item match "match"
    text ← as_text t
    pattern ← kept w style insensitive text
    ok (record {
      case_insensitive = insensitive;
      invert = invert;
      style = style;
      pattern = pattern;
    })
]

-- `__matches`. The second argument of a compiled expression's `search` is the position to start
-- from, and `re.IGNORECASE` is 2.
unfoldable pub raw_matches : World → Style → Bool → String → String → Bool
raw_matches w exact insensitive pattern s =
    if insensitive then str_eq (lower s) pattern else str_eq s pattern
raw_matches w contains insensitive pattern s =
    if insensitive then is_in pattern (lower s) else is_in pattern s
raw_matches w regex insensitive pattern s = w.regex_search pattern s (if insensitive then 2 else 0)

unfoldable pub matches : World → StringMatcher → String → Bool
matches w m s =
    let result = raw_matches w m.style m.case_insensitive m.pattern s in
    if m.invert then not result else result
