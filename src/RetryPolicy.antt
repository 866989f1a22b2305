-- ===== src/RetryPolicy.antt =====
-- python-pscheduler/pscheduler/pscheduler/retry.py. The times to wait are of any type: texts, or
-- durations.
pub mod Schedule
use pscheduler.Common.{
  ℕ, ◌-◌, String, Bool, true, false, ltb, Option, none, some, List, [], ◌∷◌, Result, ok, err,
  value_error, ◌>>=◌, ◌>>◌, if◌then◌else◌,
}
use pscheduler.Json.{Json, obj, end, field, get_item, as_text, as_number, as_list}
use pscheduler.World.{World}

pub record Segment {ℓ} (W : Type ℓ) : Type ℓ where
  pub attempts : ℕ
  pub wait : W

-- The segments of a policy, with what `wait` makes of each time to wait.
segments : {W : Type 0} → (String → Result W) → List Json → Result (List (Segment W))
segments wait [] = ok []
segments wait (item ∷ policy) = do
  a ← get_item item "attempts"
  attempts ← as_number a
  t ← get_item item "wait"
  text ← as_text t
  interval ← wait text
  rest ← segments wait policy
  ok (record { attempts = attempts; wait = interval } ∷ rest)

-- `RetryPolicy(policy, iso8601)`: the times to wait stay texts, or become durations.
unfoldable pub construct :
    {W : Type 0} → World → (String → Result W) → Json → Result (List (Segment W))
unfolding segments
construct w wait policy = elim (w.json_validate "RetryPolicy" (obj (field "policy" policy end))) [
  | some message ↦ err (value_error message)
  | none ↦ do items ← as_list policy; segments wait items
]

abbrev pub construct_iso8601 : World → Json → Result (List (Segment String))
construct_iso8601 w = construct w ok

abbrev pub construct_durations : World → Json → Result (List (Segment ℕ))
construct_durations w = construct w w.as_timedelta

-- `retry`: the number left falls below 0 exactly if it is below the segment's attempts.
unfoldable pub retry {ℓ} : {W : Type ℓ} → List (Segment W) → ℕ → Option W
retry [] attempts = none
retry (segment ∷ policy) attempts =
    let rest = retry policy (attempts - segment.attempts) in
    if ltb attempts segment.attempts then some segment.wait else rest
