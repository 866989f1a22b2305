-- ===== src/DurationRange.antt =====
-- python-pscheduler/pscheduler/pscheduler/durationrange.py, for durations that are texts.
use pscheduler.Common.{
  ℕ, String, Bool, true, false, not, ◌&&◌, ◌||◌, leb, concat, Option, none, some, [], ◌∷◌, Result,
  ok, err, value_error, ◌>>=◌, ◌>>◌, if◌then◌else◌,
}
use pscheduler.Json.{Json, str, get_item, as_text}
use pscheduler.World.{World}

pub record DurationRange : Type 0 where
  pub lower : ℕ
  pub upper : ℕ
  pub lower_str : String
  pub upper_str : String

-- `json_validate`, and the exception of the constructor.
valid_range : World → Json → Result (Unit {0})
valid_range w drange = elim (w.json_validate "DurationRange" drange) [
  | none ↦ ok tt
  | some message ↦ err (value_error (concat ("Invalid duration range: " ∷ message ∷ [])))
]

unfoldable pub construct : World → Json → Result DurationRange
unfolding valid_range
construct w drange = do
  valid_range w drange
  l ← get_item drange "lower"
  lower_str ← as_text l
  lower ← w.as_timedelta lower_str
  u ← get_item drange "upper"
  upper_str ← as_text u
  upper ← w.as_timedelta upper_str
  ok (record { lower = lower; upper = upper; lower_str = lower_str; upper_str = upper_str })

abbrev pub inside : DurationRange → ℕ → Bool
inside r test_value = leb r.lower test_value && leb test_value r.upper

-- `duration in self`.
unfoldable pub has_duration : World → DurationRange → Json → Result Bool
has_duration w r (str s) = do test_value ← w.as_timedelta s; ok (inside r test_value)
has_duration w r v = err (value_error "Invalid duration; must be ISO8601 string or timedelta.")

abbrev pub stub : DurationRange → Bool → String
stub r invert =
    concat
      ("not " ∷ (if invert then "outside" else "in") ∷ " " ∷ r.lower_str ∷ ".." ∷ r.upper_str ∷ [])

-- `contains`: the answer, and the stub of a message for a failure.
unfoldable pub contains : World → DurationRange → Json → Bool → Result (Bool × Option String)
contains w r duration invert = do
  in_range ← has_duration w r duration
  ok (
      if (in_range && invert) || (not in_range && not invert)
      then (false, some (stub r invert))
      else (true, none))
