-- ===== src/SpecLimits/Numeric.antt =====
-- `check_numeric_limit` and `check_numeric_range_limit` of limits.py.
pub mod Between
use pscheduler.Common.{
  String, Bool, true, false, not, concat, Option, none, some, List, [], ◌∷◌, ◌++◌, Result, ok, err,
  key_error, ◌>>=◌, if◌then◌else◌,
}
use pscheduler.Json.{Json, get_item}
use pscheduler.World.{World}
use pscheduler.NumericRange
use pscheduler.NumericRange.{NumericRange}
use pscheduler.SiNumber.{Comparison}
use pscheduler.SpecLimits.{Subject, unless_missing, invert_of, report, stub_text}

-- The range of the limit, and whether it is inverted.
unfoldable pub range_of : World → Subject → Result (NumericRange × Bool)
range_of w s = do
  l ← get_item s.limit s.limit_field
  range ← get_item l "range"
  nrange ← NumericRange.construct w range
  invert ← invert_of l
  ok (nrange, invert)

-- The errors of one number; `name` is what stands before the stub of the message.
unfoldable pub number_errors :
    Comparison → NumericRange → Bool → (name : String) → Json → Result (List String)
number_errors floats nrange invert name number = do
  (contains, message) ← NumericRange.contains floats nrange number false
  ok (
      report (if invert then contains else not contains)
        (concat (name ∷ " " ∷ stub_text message ∷ [])))

unfoldable pub numeric_errors : World → Comparison → Subject → Result (List String)
numeric_errors w floats s = do
  (nrange, invert) ← range_of w s
  v ← get_item s.spec s.spec_field
  number_errors floats nrange invert s.description v

unfoldable pub check_numeric_limit : World → Comparison → Subject → Result (List String)
check_numeric_limit w floats s = unless_missing (numeric_errors w floats s)

-- One round of the loop over the bounds.
unfoldable pub bound_errors :
    Comparison → Subject → NumericRange → Bool → (bound : String) → Result (List String)
bound_errors floats s nrange invert bound = do
  range ← get_item s.spec s.spec_field
  v ← get_item range bound
  number_errors floats nrange invert (concat (s.description ∷ " (" ∷ bound ∷ " bound)" ∷ [])) v

-- The rounds: a KeyError ends the loop, and the errors before it stay.
unfoldable pub bounds_errors :
    Comparison → Subject → NumericRange → Bool → List String → Result (List String)
bounds_errors floats s nrange invert [] = ok []
bounds_errors floats s nrange invert (bound ∷ bounds) =
    let rest = bounds_errors floats s nrange invert bounds in
    elim (bound_errors floats s nrange invert bound) [
      | err e ↦ unless_missing (err e)
      | ok errors ↦ do more ← rest; ok (errors ++ more)
    ]

unfoldable pub check_numeric_range_limit : World → Comparison → Subject → Result (List String)
check_numeric_range_limit w floats s = unless_missing (do
  (nrange, invert) ← range_of w s
  bounds_errors floats s nrange invert ("lower" ∷ "upper" ∷ []))
