-- ===== src/Limit/RunSchedule/Values.antt =====
-- The sets of numbers of a run schedule limit: single numbers and ranges, flattened.
use pscheduler.Common.{ℕ, zero, suc, ◌+◌, ◌-◌, String, List, [], ◌∷◌, ◌++◌, Result, ok, ◌>>=◌}
use pscheduler.Json.{Json, obj, get_item, as_number, as_list}

-- `count` numbers from `lower` up.
unfoldable pub range_from : (lower count : ℕ) → List ℕ
range_from lower zero = []
range_from lower (suc count) = lower ∷ range_from (lower + 1) count

-- Python's `range(lower, upper)`.
unfoldable pub range : (lower upper : ℕ) → List ℕ
unfolding range_from
range lower upper = range_from lower (upper - lower)

-- `isinstance(item, dict)`, with the two cases of the loop's body.
unfoldable pub single_or_range : Json → Result (List ℕ)
single_or_range (obj m) = do
  l ← get_item (obj m) "lower"
  lower ← as_number l
  u ← get_item (obj m) "upper"
  upper ← as_number u
  ok (range lower (upper + 1))
single_or_range v = do n ← as_number v; ok (n ∷ [])

unfoldable pub flatten : List Json → Result (List ℕ)
flatten [] = ok []
flatten (v ∷ vs) = do ns ← single_or_range v; rest ← flatten vs; ok (ns ++ rest)

-- The entry that a name's list adds to `self.matches`.
unfoldable pub value_set : String → Json → Result (List (String × List ℕ))
value_set name v = do vs ← as_list v; ns ← flatten vs; ok ((name, ns) ∷ [])
