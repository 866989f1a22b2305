-- ===== src/Limit/RunDateRange.antt =====
-- limitprocessor/limit/rundaterange.py. Datetimes are compared by their instants.
pub mod Overlap
use pscheduler.Common.{
  ℕ, Bool, true, false, ◌&&◌, ◌||◌, Result, ok, err, value_error, ◌>>=◌, ◌>>◌, if◌then◌else◌, guard,
  not, ltb, leb, Option, none, some,
}
use pscheduler.Json.{Json, get, get_item, as_text, as_bool, as_dict}
use pscheduler.World.{World, Moment}
use pscheduler.Proposal.{Proposal, Evaluated, passes, fails, check_data}

pub record RunDateRange : Type 0 where
  pub start : Moment
  pub end : Moment
  pub overlap : Bool

-- `data['overlap'] if 'overlap' in data else False`.
unfoldable pub overlap_of : Json → Result Bool
overlap_of data' = do
  m ← as_dict data'
  elim (get "overlap" m) [ none ↦ ok false | some v ↦ as_bool v ]

unfoldable pub construct : World → Json → Result RunDateRange
unfolding overlap_of
construct w data' = do
  check_data w "rundaterange_data_validator" data'
  s ← get_item data' "start"
  s_text ← as_text s
  start ← w.as_datetime s_text
  e ← get_item data' "end"
  e_text ← as_text e
  end ← w.as_datetime e_text
  guard (not (ltb end.instant start.instant)) (value_error "End must be after start.")
  overlap ← overlap_of data'
  ok (record { start = start; end = end; overlap = overlap })

-- The run's start, and its start plus its duration.
pub record Run : Type 0 where
  pub start : Moment
  pub end : Moment

unfoldable pub run_of : World → Proposal → Result Run
run_of w p = do
  schedule ← get_item p.task "run_schedule"
  s ← get_item schedule "start"
  s_text ← as_text s
  start ← w.as_datetime s_text
  d ← get_item schedule "duration"
  d_text ← as_text d
  duration ← w.as_timedelta d_text
  ok (record { start = start; end = w.later start duration })

-- The tests of `evaluate`, on the instants of the run and of the range.
unfoldable pub in_range : Bool → (start end lower upper : ℕ) → Bool
in_range overlap start end lower upper =
    let subset = leb lower start && ltb end upper in
    if overlap
    then leb start lower && ltb lower end || leb start upper && ltb upper end || subset
    else subset

unfoldable pub evaluate : World → RunDateRange → Proposal → Result Evaluated
evaluate w l p = do
  run ← run_of w p
  let passed = in_range l.overlap run.start.instant run.end.instant l.start.instant l.end.instant
  ok (if passed then passes else fails "Ranges do not match")
