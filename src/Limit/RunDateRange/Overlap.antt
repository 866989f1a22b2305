-- ===== src/Limit/RunDateRange/Overlap.antt =====
-- Which runs the range lets pass.
use pscheduler.Common.{ℕ, ◌≤◌, ◌<◌, ◌≡◌, ◌≢◌, ◌⊎◌, ◌↔◌, true, false, arith}
use pscheduler.Limit.RunDateRange.{in_range}

-- Without `overlap`, a run passes exactly if it starts in the range and ends before the range does.
pub in_range_inside :
    (start end lower upper : ℕ)
    → (in_range false start end lower upper ≡ true) ↔ ((lower ≤ start) × (end < upper))
unfolding in_range
in_range_inside start end lower upper = ground arith

-- With `overlap`, a run of positive length passes exactly if it meets the range, its upper end
-- included, and is not one that starts after the range does and ends just where the range ends.
pub in_range_overlap :
    (start end lower upper : ℕ)
    → lower ≤ upper
    → start < end
    → (in_range true start end lower upper ≡ true)
      ↔ ((start ≤ upper) × (lower < end) × ((start ≤ lower) ⊎ (end ≢ upper)))
unfolding in_range
in_range_overlap start end lower upper h k = ground arith
