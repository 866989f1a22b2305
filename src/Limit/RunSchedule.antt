-- ===== src/Limit/RunSchedule.antt =====
-- limitprocessor/limit/runschedule.py: `wrappable_range_overlaps` and `LimitRunSchedule`. The
-- debugging `print` is left out.
mod Values
pub mod Ranges
pub mod Fields
unfoldable pub use Values.{single_or_range, flatten, value_set, range, range_from}
use pscheduler.Common.{
  ℕ, ◌+◌, ◌-◌, Bool, true, false, not, ◌&&◌, ◌||◌, String, concat, decimal, List, [], ◌∷◌, ◌++◌,
  Option, none, some, map, every, some_of, has, lookup, is_empty, Result, ok, err, value_error,
  ◌>>=◌, ◌>>◌, guard, ltb, leb, if◌then◌else◌,
}
use pscheduler.Json.{Json, get, as_dict}
use pscheduler.World.{World, Moment}
use pscheduler.Proposal.{Proposal, Evaluated, passes, check_data}
use pscheduler.Limit.RunDateRange.{Run, run_of, overlap_of}

-- The numbers of the range from `start` to `end`; a range that ends below its start goes on to
-- `wrap_after` and then covers the numbers from 0 to `wrap_to`.
unfoldable pub ranges : (start end wrap_after wrap_to : ℕ) → List ℕ
ranges start end wrap_after wrap_to =
    if leb start end
    then range start (end + 1)
    else range start (wrap_after + 1) ++ range 0 (wrap_to + 1)

-- `bool(test.intersection(ranges)) if overlap else ranges.issubset(test)`.
unfoldable pub matches : (test numbers : List ℕ) (overlap : Bool) → Bool
matches test numbers overlap =
    if overlap then some_of (has test) numbers else every (has test) numbers

unfoldable pub wrappable_range_overlaps :
    (start end : ℕ) (test : List ℕ) (wrap_after wrap_to : ℕ) (overlap : Bool) → Result Bool
wrappable_range_overlaps start end test wrap_after wrap_to overlap = do
  guard (ltb wrap_to wrap_after) (value_error "Unusuable wrap values.")
  guard (leb wrap_to start && leb start wrap_after && (leb wrap_to end && leb end wrap_after)) (
      value_error (
        concat
          ("Start and end must be in [" ∷ decimal wrap_to ∷ ".." ∷ decimal wrap_after ∷ "]" ∷ [])))
  ok (matches test (ranges start end wrap_after wrap_to) overlap)

pub record RunSchedule : Type 0 where
  pub overlap : Bool
  pub matches : List (String × List ℕ)

-- The loop over the names that may stand in the data.
collect : List String → Json → Result (List (String × List ℕ))
collect [] data' = ok []
collect (name ∷ names) data' = do
  m ← as_dict data'
  found ← elim (get name m) [ none ↦ ok [] | some v ↦ value_set name v ]
  rest ← collect names data'
  ok (found ++ rest)

abbrev pub field_names : List String
field_names = "year" ∷ "month" ∷ "week" ∷ "weekday" ∷ "day" ∷ "hour" ∷ "minute" ∷ "second" ∷ []

unfoldable pub construct : World → Json → Result RunSchedule
unfolding collect
construct w data' = do
  check_data w "runschedule_data_validator" data'
  overlap ← overlap_of data'
  sets ← collect field_names data'
  ok (record { overlap = overlap; matches = sets })

-- A row of the table that `evaluate` goes through.
pub record Row : Type 0 where
  pub name : String
  pub lower : ℕ
  pub upper : ℕ
  pub wrap_after : ℕ
  pub wrap_to : ℕ

abbrev row : String → (lower upper wrap_after wrap_to : ℕ) → Row
row name lower upper wrap_after wrap_to = record {
  name = name;
  lower = lower;
  upper = upper;
  wrap_after = wrap_after;
  wrap_to = wrap_to;
}

unfoldable pub table : (start end : Moment) → List Row
table start end =
    row "year" start.year end.year 294276 1
    ∷ row "month" start.month end.month 12 1
    ∷ row "week" start.week end.week 53 1
    ∷ row "weekday" start.weekday end.weekday 7 1
    ∷ row "day" start.day end.day 31 1
    ∷ row "hour" start.hour end.hour 23 0
    ∷ row "minute" start.minute end.minute 59 0
    ∷ row "second" start.second end.second 59 0
    ∷ []

-- One round of the loop: whether the row's field is named in the limit and fails to match.
unfoldable pub mismatch : RunSchedule → Row → Result Bool
mismatch l r = elim (lookup r.name l.matches) [
  | none ↦ ok false
  | some test ↦ do
    matched ← wrappable_range_overlaps r.lower r.upper test r.wrap_after r.wrap_to l.overlap
    ok (not matched)
]

-- The loop: the names that failed to match.
unfoldable pub match_failures : RunSchedule → List Row → Result (List String)
match_failures l [] = ok []
match_failures l (r ∷ rs) = do
  failed ← mismatch l r
  rest ← match_failures l rs
  ok (if failed then r.name ∷ rest else rest)

unfoldable pub verdict : List String → Evaluated
verdict [] = passes
verdict (n ∷ ns) = record {
  passed = false;
  limit = none;
  reasons = some (map (λ mis. concat ("Mismatch on " ∷ mis ∷ [])) (n ∷ ns));
}

unfoldable pub evaluate : World → RunSchedule → Proposal → Result Evaluated
unfolding verdict
evaluate w l p = do
  run ← run_of w p
  failures ← match_failures l (table run.start run.end)
  ok (verdict failures)
