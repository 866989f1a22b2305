-- ===== src/SpecLimits/Numeric/Between.antt =====
-- What a passing range of a spec says of the numbers between its bounds.
use pscheduler.Common.{
  String, ◌≡◌, ◌∙◌, sym, ap, refl, Bool, true, false, Bool-cases, inl, inr, arith, List, [], ◌∷◌,
  ◌++◌, ok, concat, if◌then◌else◌,
}
use pscheduler.Json.{Json, ℤ, pos, negsuc, get_item}
use pscheduler.World.{World}
use pscheduler.SiNumber.{Number, whole, Comparison, exceeds, si_as_number}
use pscheduler.NumericRange
use pscheduler.NumericRange.{NumericRange, inside, has_number, stub}
use pscheduler.SpecLimits.{Subject}
use pscheduler.SpecLimits.Numeric.{
  range_of, number_errors, bound_errors, bounds_errors, check_numeric_range_limit,
}

-- What is said of one number.
abbrev refusals : Comparison → NumericRange → Bool → String → Number → List String
refusals floats r true name n =
    if inside floats r n then concat (name ∷ " " ∷ "None" ∷ []) ∷ [] else []
refusals floats r false name n =
    if inside floats r n then [] else concat (name ∷ " " ∷ stub r false ∷ []) ∷ []

number-refusals :
    (floats : Comparison) (r : NumericRange) (invert : Bool) (name : String) (v : Json) (n : Number)
    → si_as_number v ≡ ok n
    → number_errors floats r invert name v ≡ ok (refusals floats r invert name n)
unfolding number_errors NumericRange.contains has_number
number-refusals floats r true name v n h = elim (Bool-cases (inside floats r n)) [
  | inl i ↦ rw (h, i)
  | inr i ↦ rw (h, i)
]
number-refusals floats r false name v n h = elim (Bool-cases (inside floats r n)) [
  | inl i ↦ rw (h, i)
  | inr i ↦ rw (h, i)
]

exceeds_refl : (floats : Comparison) (a : ℤ) → exceeds floats (whole a) (whole a) ≡ false
unfolding exceeds
exceeds_refl floats (pos a) = ground arith
exceeds_refl floats (negsuc a) = ground arith

exceeds_trans :
    (floats : Comparison) (a b c : ℤ)
    → exceeds floats (whole a) (whole b) ≡ false
    → exceeds floats (whole b) (whole c) ≡ false
    → exceeds floats (whole a) (whole c) ≡ false
unfolding exceeds
exceeds_trans floats (pos a) (pos b) (pos c) h k = ground arith
exceeds_trans floats (pos a) (pos b) (negsuc c) h k = absurd (cc)
exceeds_trans floats (pos a) (negsuc b) c h k = absurd (cc)
exceeds_trans floats (negsuc a) b (pos c) h k = refl
exceeds_trans floats (negsuc a) (pos b) (negsuc c) h k = absurd (cc)
exceeds_trans floats (negsuc a) (negsuc b) (negsuc c) h k = ground arith

-- A number between two others that are in a range of integers is in it.
between :
    (floats : Comparison) (r : NumericRange) (lo hi low n high : ℤ)
    → r.lower ≡ whole lo
    → r.upper ≡ whole hi
    → exceeds floats (whole low) (whole n) ≡ false
    → exceeds floats (whole n) (whole high) ≡ false
    → inside floats r (whole low) ≡ true
    → inside floats r (whole high) ≡ true
    → inside floats r (whole n) ≡ true
between floats r lo hi low n high a b c d e f =
    let lowest : exceeds floats r.lower (whole low) ≡ false = ground (arith, e) in
    let highest : exceeds floats (whole high) r.upper ≡ false = ground (arith, f) in
    let above : exceeds floats r.lower (whole n) ≡ false =
      rw a (
        exceeds_trans floats lo low n (sym (ap (λ m. exceeds floats m (whole low)) a) ∙ lowest)
          c) in
    let below : exceeds floats (whole n) r.upper ≡ false =
      rw b
        (exceeds_trans floats n high hi d (sym (ap (exceeds floats (whole high)) b) ∙ highest)) in
    ground (arith, above, below)

abbrev bound_name : Subject → String → String
bound_name s bound = concat (s.description ∷ " (" ∷ bound ∷ " bound)" ∷ [])

module _ (w : World) (floats : Comparison) (s : Subject) (nrange : NumericRange) (invert : Bool)
    (range lower upper : Json) (low high : Number) (limit_read : range_of w s ≡ ok (nrange, invert))
    (spec_read : get_item s.spec s.spec_field ≡ ok range)
    (lower_there : get_item range "lower" ≡ ok lower) (lower_read : si_as_number lower ≡ ok low)
    (upper_there : get_item range "upper" ≡ ok upper)
    (upper_read : si_as_number upper ≡ ok high) where
  bound-refusals :
      (bound : String) (v : Json) (n : Number)
      → get_item range bound ≡ ok v
      → si_as_number v ≡ ok n
      → bound_errors floats s nrange invert bound
        ≡ ok (refusals floats nrange invert (bound_name s bound) n)
  unfolding bound_errors
  bound-refusals bound v n a b = rw (spec_read, a) (number-refusals floats nrange invert _ v n b)

  both-refusals :
      bounds_errors floats s nrange invert ("lower" ∷ "upper" ∷ [])
      ≡ ok (
          refusals floats nrange invert (bound_name s "lower") low
          ++ (refusals floats nrange invert (bound_name s "upper") high ++ []))
  unfolding bounds_errors
  both-refusals =
      rw
        (
          bounds_errors,
          bound-refusals "lower" lower low lower_there lower_read,
          bound-refusals "upper" upper high upper_there upper_read,
        )
        refl

  range-refusals :
      check_numeric_range_limit w floats s
      ≡ ok (
          refusals floats nrange invert (bound_name s "lower") low
          ++ (refusals floats nrange invert (bound_name s "upper") high ++ []))
  unfolding check_numeric_range_limit
  range-refusals = rw (limit_read, both-refusals) refl

-- The bounds of a range that a limit lets through, which is not inverted.
straight_bounds :
    (floats : Comparison) (r : NumericRange) (name name' : String) (low high : Number)
    → ok (refusals floats r false name low ++ (refusals floats r false name' high ++ [])) ≡ ok []
    → (inside floats r low ≡ true) × (inside floats r high ≡ true)
straight_bounds floats r name name' low high h = elim (Bool-cases (inside floats r low)) [
  | inl i ↦ elim (Bool-cases (inside floats r high)) [
    | inl j ↦ (i, j)
    | inr j ↦ absurd (ground (arith, h, i, j))
  ]
  | inr i ↦ absurd (ground (arith, h, i))
]

module _ (w : World) (floats : Comparison) (s : Subject) (nrange : NumericRange)
    (range lower upper : Json) (lo hi low high : ℤ) (lo_is : nrange.lower ≡ whole lo)
    (hi_is : nrange.upper ≡ whole hi) (spec_read : get_item s.spec s.spec_field ≡ ok range)
    (lower_there : get_item range "lower" ≡ ok lower)
    (lower_read : si_as_number lower ≡ ok (whole low))
    (upper_there : get_item range "upper" ≡ ok upper)
    (upper_read : si_as_number upper ≡ ok (whole high)) where
  -- If a limit on a range, which is not inverted and whose bounds are integers, has no error for a
  -- spec with integer bounds, then every integer between those is in the limit's range.
  passing_between :
      (n : ℤ)
      → range_of w s ≡ ok (nrange, false)
      → check_numeric_range_limit w floats s ≡ ok []
      → exceeds floats (whole low) (whole n) ≡ false
      → exceeds floats (whole n) (whole high) ≡ false
      → inside floats nrange (whole n) ≡ true
  passing_between n limit_read passes least most =
      let facts =
        range-refusals w floats s nrange false range lower upper (whole low) (whole high) limit_read
          spec_read lower_there lower_read upper_there upper_read in
      let (i, j) =
        straight_bounds floats nrange (bound_name s "lower") (bound_name s "upper") (whole low)
          (whole high) (sym facts ∙ passes) in
      between floats nrange lo hi low n high lo_is hi_is least most i j

  -- An inverted limit has no error for a range that reaches beyond the limit's range on both
  -- sides, although it holds the numbers of that range, which the limit is to keep out.
  pub inverted_surrounded :
      range_of w s ≡ ok (nrange, true)
      → exceeds floats (whole lo) (whole low) ≡ true
      → exceeds floats (whole high) (whole hi) ≡ true
      → exceeds floats (whole lo) (whole hi) ≡ false
      → (check_numeric_range_limit w floats s ≡ ok []) × (inside floats nrange (whole lo) ≡ true)
  inverted_surrounded limit_read below above ordered =
      let facts =
        range-refusals w floats s nrange true range lower upper (whole low) (whole high) limit_read
          spec_read lower_there lower_read upper_there upper_read in
      let out_low : inside floats nrange (whole low) ≡ false = rw lo_is (ground (arith, below)) in
      let out_high : inside floats nrange (whole high) ≡ false = rw hi_is (ground (arith, above)) in
      (
        facts ∙ rw (out_low, out_high) refl,
        rw (lo_is, hi_is) (ground (arith, exceeds_refl floats lo, ordered)),
      )
