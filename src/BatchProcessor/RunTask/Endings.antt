-- ===== src/BatchProcessor/RunTask/Endings.antt =====
-- How a script may end, and what each of its constructs keeps of that.
use pscheduler.Common.{
  ℕ, String, ◌≡◌, ◌⊎◌, inl, refl, Bool, true, false, List, [], ◌∷◌, ◌++◌, Result, ok, err,
  key_error, value_error, type_error, index_error, runtime_error, assertion_error, jq_error,
  name_error, url_error, if◌then◌else◌,
}
use pscheduler.Json.{Json, arr, obj, end, field}
use pscheduler.World.{Moment}
use pscheduler.BatchProcessor.{array}
use pscheduler.BatchProcessor.RunTask.{
  Call, url_get, url_post, Reply, answered, threw, Script, done, http, sleep, time_now, fail, try,
  reply, try_key, try_value,
}

-- The bodies that a call posts.
abbrev pub posts : Call → List String
posts (url_get url params json throw) = []
posts (url_post url body) = body ∷ []

-- Whatever is answered and whatever the time is, the script's end satisfies the predicate of the
-- bodies posted, in order, and the result.
abbrev pub Always : (List String → Result Json → Type 0) → List String → Script → Type 0
Always P sent (done r) = P sent r
Always P sent (http c rest) = (r : Reply) → Always P (sent ++ posts c) (rest r)
Always P sent (sleep n s) = Always P sent s
Always P sent (time_now rest) = (now : ℕ) → Always P sent (rest now)

-- A dict of `__fail`, or a list with one in place of a run.
abbrev pub IsFailure : Json → Type 0
IsFailure v =
    ((text : String) × (v ≡ fail text))
    ⊎ ((text : String) × (v ≡ arr (array (obj (field "application/json" (fail text) end) ∷ []))))

-- The task's dict and its runs.
abbrev pub IsSuccess : Json → Json → Type 0
IsSuccess spec v =
    (runs : List Json) × (v ≡ obj (field "task" spec (field "runs" (arr (array runs)) end)))

-- An exception, a failure, or after the post a success.
abbrev pub IsEnding : Json → String → List String → Result Json → Type 0
IsEnding spec body sent (err e) = (sent ≡ []) ⊎ (sent ≡ body ∷ [])
IsEnding spec body sent (ok v) =
    (((sent ≡ []) ⊎ (sent ≡ body ∷ [])) × IsFailure v) ⊎ ((sent ≡ body ∷ []) × IsSuccess spec v)

-- The end of a dry run.
abbrev pub IsDry : List String → Result Json → Type 0
IsDry sent r = (sent ≡ []) × (r ≡ ok (obj end))

module _ (spec : Json) (body : String) where
  -- Nothing was posted yet, or the task was.
  abbrev pub Sent : List String → Type 0
  Sent sent = (sent ≡ []) ⊎ (sent ≡ body ∷ [])

  pub fails_well :
      (sent : List String) (text : String)
      → Sent sent
      → Always (IsEnding spec body) sent (done (ok (fail text)))
  fails_well sent text s = inl (s, inl (text, refl))

  pub try_well :
      {A : Type 0} (sent : List String) (r : Result A) (rest : A → Script)
      → Sent sent
      → ((a : A) → Always (IsEnding spec body) sent (rest a))
      → Always (IsEnding spec body) sent (try r rest)
  unfolding try
  try_well sent (err e) rest s k = s
  try_well sent (ok a) rest s k = k a

  pub reply_well :
      (sent : List String) (r : Reply) (rest : ℕ → Json → Script)
      → Sent sent
      → ((n : ℕ) (v : Json) → Always (IsEnding spec body) sent (rest n v))
      → Always (IsEnding spec body) sent (reply r rest)
  unfolding reply
  reply_well sent (threw e) rest s k = s
  reply_well sent (answered n v) rest s k = k n v

  pub if_well :
      (sent : List String) (b : Bool) (s t : Script)
      → Always (IsEnding spec body) sent s
      → Always (IsEnding spec body) sent t
      → Always (IsEnding spec body) sent (if b then s else t)
  if_well sent true s t p q = p
  if_well sent false s t p q = q

  pub try_key_well :
      (sent : List String) (r : Result Json) (missing : Script) (rest : Json → Script)
      → Sent sent
      → Always (IsEnding spec body) sent missing
      → ((v : Json) → Always (IsEnding spec body) sent (rest v))
      → Always (IsEnding spec body) sent (try_key r missing rest)
  unfolding try_key
  try_key_well sent (ok v) missing rest s p q = q v
  try_key_well sent (err (key_error e)) missing rest s p q = p
  try_key_well sent (err (value_error e)) missing rest s p q = s
  try_key_well sent (err (type_error e)) missing rest s p q = s
  try_key_well sent (err (index_error e)) missing rest s p q = s
  try_key_well sent (err (runtime_error e)) missing rest s p q = s
  try_key_well sent (err (assertion_error e)) missing rest s p q = s
  try_key_well sent (err (jq_error e)) missing rest s p q = s
  try_key_well sent (err (name_error e)) missing rest s p q = s
  try_key_well sent (err (url_error e)) missing rest s p q = s

  pub try_value_well :
      (sent : List String) (r : Result Moment) (handler : String → Script) (rest : Moment → Script)
      → Sent sent
      → ((text : String) → Always (IsEnding spec body) sent (handler text))
      → ((m : Moment) → Always (IsEnding spec body) sent (rest m))
      → Always (IsEnding spec body) sent (try_value r handler rest)
  unfolding try_value
  try_value_well sent (ok m) handler rest s p q = q m
  try_value_well sent (err (value_error e)) handler rest s p q = p e
  try_value_well sent (err (key_error e)) handler rest s p q = s
  try_value_well sent (err (type_error e)) handler rest s p q = s
  try_value_well sent (err (index_error e)) handler rest s p q = s
  try_value_well sent (err (runtime_error e)) handler rest s p q = s
  try_value_well sent (err (assertion_error e)) handler rest s p q = s
  try_value_well sent (err (jq_error e)) handler rest s p q = s
  try_value_well sent (err (name_error e)) handler rest s p q = s
  try_value_well sent (err (url_error e)) handler rest s p q = s
