-- ===== src/LimitProcessor/Priorities.antt =====
-- The texts about a priority.
use pscheduler.Common.{
  String, Bool, concat, decimal, suc, none, some, [], ◌∷◌, Result, ok, err, type_error, ◌>>=◌,
  if◌then◌else◌,
}
use pscheduler.Json.{ℤ, pos, negsuc, Json, null, num, get, as_dict}

-- `"%d"` of an integer.
signed : ℤ → String
signed (pos n) = decimal n
signed (negsuc n) = concat ("-" ∷ decimal (suc n) ∷ [])

integer : Json → Result ℤ
integer (num z) = ok z
integer v = err (type_error "%d format: a number is required")

-- What is said of the priority that the task asks for, if it asks for one.
unfoldable pub requested_text : Json → Result String
unfolding signed integer
requested_text task = do
  m ← as_dict task
  elim (get "priority" m) [
    | none ↦ ok ""
    | some v ↦ elim v [
      | null ↦ ok ""
      | other ↦ do z ← integer other; ok (concat (" " ∷ signed z ∷ " requested," ∷ []))
    ]
  ]

-- The priority, and the line that reports it.
unfoldable pub priority_text : String → Json → Bool → Result (ℤ × String)
unfolding signed integer
priority_text requested v quiet = do
  z ← integer v
  ok (
    z,
    concat ("Priority" ∷ requested ∷ " set at " ∷ signed z ∷ (if quiet then "." else ":") ∷ []),
  )
