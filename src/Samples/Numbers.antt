-- ===== src/Samples/Numbers.antt =====
-- Numbers with units, and a range of a spec against a limit.
use pscheduler.Common.{
  ℕ, ◌≡◌, refl, Bool, true, false, some, [], ◌∷◌, ok, lookup, concat, decimal, ◌*◌, ◌^◌,
}
use pscheduler.Json.{Json, pos, negsuc, num, bool, str, obj, end, field, get_item, as_bool, as_dict}
use pscheduler.JqFilter.{shown}
use pscheduler.StringMatcher.{lower, lower_char}
use pscheduler.SiNumber.{
  whole, scaled, Comparison, exceeds, negative, si_multipliers, si_as_number, search, unsigned,
  after_digits, whole_number, fraction_number, digits, multiplier_of, chomp, product, int_from,
}
use pscheduler.CidrListUrl.Lines.{lstrip, is_space}
use pscheduler.SiNumber.Decimals.{si_as_number-decimal}
use pscheduler.NumericRange
use pscheduler.NumericRange.{NumericRange, inside, bound_of}
use pscheduler.SpecLimits.{Subject, invert_of}
use pscheduler.SpecLimits.Numeric.{
  range_of, number_errors, bound_errors, bounds_errors, check_numeric_range_limit,
}
use pscheduler.SpecLimits.Numeric.Between.{inverted_surrounded}
use pscheduler.Samples.Worlds.{world}

si_test : si_as_number (str "-12 Ki") ≡ ok (whole (negsuc 12287))
unfolding si_as_number lower lower_char search unsigned after_digits whole_number digits
    multiplier_of chomp lstrip is_space product int_from negative
si_test = refl

float_test : si_as_number (str "3.14p\n") ≡ ok (scaled "3.14" (1000 ^ 5))
unfolding si_as_number lower lower_char search unsigned after_digits fraction_number digits
    multiplier_of chomp lstrip is_space
float_test = refl

kilobits : lookup (lower "Ki") si_multipliers ≡ some 1024
unfolding lower lower_char
kilobits = refl

si_as_number-decimal_example :
    si_as_number (str (concat ("-" ∷ decimal 12 ∷ "Ki" ∷ []))) ≡ ok (whole (negative (12 * 1024)))
si_as_number-decimal_example = si_as_number-decimal true 12 1024 "Ki" kilobits

-- No number of the samples has a fraction.
abbrev floats : Comparison
floats a b = false

abbrev span : ℕ → ℕ → Json
span a b = obj (field "lower" (num (pos a)) (field "upper" (num (pos b)) end))

abbrev ports : Bool → Json → Subject
ports invert value = record {
  limit =
      obj (field "ports" (obj (field "range" (span 10 20) (field "invert" (bool invert) end))) end);
  spec = obj (field "ports" value end);
  limit_field = "ports";
  description = "ports";
  spec_field = "ports";
}

abbrev ten_to_twenty : NumericRange
ten_to_twenty = record {
  lower = whole (pos 10);
  upper = whole (pos 20);
  lower_str = shown world (num (pos 10));
  upper_str = shown world (num (pos 20));
}

range_read :
    (invert : Bool) (value : Json)
    → range_of world (ports invert value) ≡ ok (ten_to_twenty, invert)
unfolding range_of get_item NumericRange.construct bound_of invert_of as_dict as_bool
range_read invert value = refl

read :
    (a b : ℕ)
    → (get_item (obj (field "ports" (span a b) end)) "ports" ≡ ok (span a b))
      × (get_item (span a b) "lower" ≡ ok (num (pos a)))
      × (get_item (span a b) "upper" ≡ ok (num (pos b)))
      × (si_as_number (num (pos a)) ≡ ok (whole (pos a)))
      × (si_as_number (num (pos b)) ≡ ok (whole (pos b)))
unfolding get_item si_as_number
read a b = (refl, refl, refl, refl, refl)

orders :
    (exceeds floats (whole (pos 12)) (whole (pos 15)) ≡ false)
    × (exceeds floats (whole (pos 15)) (whole (pos 18)) ≡ false)
    × (exceeds floats (whole (pos 10)) (whole (pos 5)) ≡ true)
    × (exceeds floats (whole (pos 30)) (whole (pos 20)) ≡ true)
    × (exceeds floats (whole (pos 10)) (whole (pos 20)) ≡ false)
unfolding exceeds
orders = (refl, refl, refl, refl, refl)

passes : check_numeric_range_limit world floats (ports false (span 12 18)) ≡ ok []
unfolding check_numeric_range_limit range_of get_item NumericRange.construct bound_of invert_of
    as_dict as_bool bounds_errors bound_errors number_errors NumericRange.contains
    NumericRange.has_number si_as_number exceeds
passes = refl

inverted_surrounded_example :
    (check_numeric_range_limit world floats (ports true (span 5 30)) ≡ ok [])
    × (inside floats ten_to_twenty (whole (pos 10)) ≡ true)
inverted_surrounded_example =
    inverted_surrounded world floats (ports true (span 5 30)) ten_to_twenty (span 5 30)
      (num (pos 5)) (num (pos 30)) (pos 10) (pos 20) (pos 5) (pos 30) refl refl (read 5 30).0
      (read 5 30).1 (read 5 30).3 (read 5 30).2 (read 5 30).4 (range_read true (span 5 30)) orders.2
      orders.3 orders.4
