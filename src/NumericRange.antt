-- ===== src/NumericRange.antt =====
-- python-pscheduler/pscheduler/pscheduler/numericrange.py. Numbers with a fraction are texts here.
use pscheduler.Common.{
  String, Bool, true, false, not, ◌&&◌, ◌||◌, concat, Option, none, some, [], ◌∷◌, Result, ok, err,
  value_error, type_error, ◌>>=◌, ◌>>◌, if◌then◌else◌,
}
use pscheduler.Json.{Json, num, str, get_item}
use pscheduler.World.{World}
use pscheduler.JqFilter.{shown}
use pscheduler.SiNumber.{Number, whole, Comparison, exceeds, si_as_number}

pub record NumericRange : Type 0 where
  pub lower : Number
  pub upper : Number
  pub lower_str : String
  pub upper_str : String

-- `json_validate`, and the exception of the constructor.
valid_range : World → Json → Result (Unit {0})
valid_range w nrange = elim (w.json_validate "NumericRange" nrange) [
  | none ↦ ok tt
  | some message ↦ err (value_error (concat ("Invalid numeric range: " ∷ message ∷ [])))
]

-- A bound: a text is read, an integer is itself, and the schema lets nothing else through.
unfoldable pub bound_of : Json → Result Number
bound_of (str s) = si_as_number (str s)
bound_of (num n) = ok (whole n)
bound_of v = err (type_error "not a number")

unfoldable pub construct : World → Json → Result NumericRange
unfolding valid_range
construct w nrange = do
  valid_range w nrange
  l ← get_item nrange "lower"
  lower ← bound_of l
  u ← get_item nrange "upper"
  upper ← bound_of u
  ok (record { lower = lower; upper = upper; lower_str = shown w l; upper_str = shown w u })

-- `lower <= test_value <= upper`: no number is a NaN, so that this is no excess on either side.
abbrev pub inside : Comparison → NumericRange → Number → Bool
inside floats r test_value =
    not (exceeds floats r.lower test_value) && not (exceeds floats test_value r.upper)

-- `number in self`.
unfoldable pub has_number : Comparison → NumericRange → Json → Result Bool
has_number floats r number = do test_value ← si_as_number number; ok (inside floats r test_value)

abbrev pub stub : NumericRange → Bool → String
stub r invert =
    concat
      ("not " ∷ (if invert then "outside" else "in") ∷ " " ∷ r.lower_str ∷ ".." ∷ r.upper_str ∷ [])

-- `contains`: the answer, and the stub of a message for a failure.
unfoldable pub contains : Comparison → NumericRange → Json → Bool → Result (Bool × Option String)
contains floats r number invert = do
  in_range ← has_number floats r number
  ok (
      if (in_range && invert) || (not in_range && not invert)
      then (false, some (stub r invert))
      else (true, none))
