-- ===== src/Samples/Schedules.antt =====
-- Limits on the time of a run.
use pscheduler.Common.{ℕ, ◌≤◌, ◌<◌, ◌≡◌, ◌≢◌, ◌↔◌, ◌⊎◌, refl, true, false, List, [], ◌∷◌, ok, arith}
use pscheduler.Limit.RunDateRange.{in_range}
use pscheduler.Limit.RunDateRange.Overlap.{in_range_overlap}
use pscheduler.Limit.RunSchedule.{range_from, range, ranges, matches, wrappable_range_overlaps}
use pscheduler.Limit.RunSchedule.Ranges.{wrapped_end_ignored}

abbrev hours : List ℕ
hours = 9 ∷ 10 ∷ 11 ∷ []

within : wrappable_range_overlaps 9 11 hours 23 0 false ≡ ok true
unfolding wrappable_range_overlaps matches ranges range range_from
within = refl

-- Ten minutes over the hour are not looked at.
past_midnight : wrappable_range_overlaps 59 10 (59 ∷ 0 ∷ []) 59 0 false ≡ ok true
unfolding wrappable_range_overlaps matches ranges range range_from
past_midnight = refl

wrapped_end_ignored_example :
    wrappable_range_overlaps 50 0 hours 59 0 false ≡ wrappable_range_overlaps 50 49 hours 59 0 false
wrapped_end_ignored_example =
    wrapped_end_ignored 50 0 49 hours 59 0 false (omega arith) (omega arith) (omega arith)
      (omega arith) (omega arith)

in_range_overlap_example :
    (in_range true 5 20 10 20 ≡ true) ↔ ((5 ≤ 20) × (10 < 20) × ((5 ≤ 10) ⊎ (◌≢◌ {A = ℕ} 20 20)))
in_range_overlap_example = in_range_overlap 5 20 10 20 (omega arith) (omega arith)
