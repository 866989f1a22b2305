-- ===== src/SpecLimits/Inverted.antt =====
-- What an inverted limit refuses.
use pscheduler.Common.{
  ℕ, String, ◌≡◌, Bool, true, false, concat, [], ◌∷◌, ok, if◌then◌else◌, Bool-cases, inl, inr,
}
use pscheduler.Json.{Json, str, get_item, as_text}
use pscheduler.World.{World}
use pscheduler.StringMatcher
use pscheduler.DurationRange
use pscheduler.DurationRange.{DurationRange, inside, stub, has_duration}
use pscheduler.SpecLimits.{
  Subject, invert_of, fail_message, check_duration_limit, duration_errors, check_string_limit,
  string_errors,
}

-- A duration that is checked against a range is refused exactly if it is not in the range, or, for
-- an inverted limit, exactly if it is in the range; then the message says "None".
check_duration_limit-inside :
    (w : World) (s : Subject) (l range : Json) (r : DurationRange) (invert : Bool) (text : String)
    (t : ℕ)
    → get_item s.spec s.spec_field ≡ ok (str text)
    → w.as_timedelta text ≡ ok t
    → get_item s.limit s.limit_field ≡ ok l
    → get_item l "range" ≡ ok range
    → DurationRange.construct w range ≡ ok r
    → invert_of l ≡ ok invert
    → check_duration_limit w s false
      ≡ ok (
          if invert
          then (if inside r t then concat (s.description ∷ " " ∷ "None" ∷ []) ∷ [] else [])
          else (if inside r t then [] else concat (s.description ∷ " " ∷ stub r false ∷ []) ∷ []))
unfolding check_duration_limit duration_errors DurationRange.contains has_duration
check_duration_limit-inside w s l range r invert text t a b c d e f = elim (Bool-cases invert) [
  | inl y ↦ elim (Bool-cases (inside r t)) [
    | inl i ↦ rw (a, c, d, e, f, b, i, y)
    | inr i ↦ rw (a, c, d, e, f, b, i, y)
  ]
  | inr y ↦ elim (Bool-cases (inside r t)) [
    | inl i ↦ rw (a, c, d, e, f, b, i, y)
    | inr i ↦ rw (a, c, d, e, f, b, i, y)
  ]
]

-- An inverted limit on a text refuses every text, whether it matches or not.
inverted_string_limit_refuses :
    (w : World) (s : Subject) (l m : Json) (match : StringMatcher.StringMatcher)
    (text message : String)
    → get_item s.limit s.limit_field ≡ ok l
    → get_item l "match" ≡ ok m
    → StringMatcher.construct w m ≡ ok match
    → invert_of l ≡ ok true
    → get_item s.spec s.spec_field ≡ ok (str text)
    → fail_message l (concat (s.description ∷ " does not match limit" ∷ [])) ≡ ok message
    → check_string_limit w s ≡ ok (message ∷ [])
unfolding check_string_limit string_errors as_text
inverted_string_limit_refuses w s l m match text message a b c d e f =
    elim (Bool-cases (StringMatcher.matches w match text)) [
      | inl y ↦ rw (a, b, c, d, e, f, y)
      | inr y ↦ rw (a, b, c, d, e, f, y)
    ]
