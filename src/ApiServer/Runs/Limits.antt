-- ===== src/ApiServer/Runs/Limits.antt =====
-- `__evaluate_limits` of runs.py, and the posting of a run that it precedes.
use pscheduler.Common.{
  ℕ, zero, suc, String, Bool, true, false, not, concat, Option, none, some, List, [], ◌∷◌, Result,
  ok, err, key_error, value_error, type_error, ◌>>=◌, if◌then◌else◌,
}
use pscheduler.Json.{
  ℤ, Json, null, num, bool, str, obj, end, field, Fields, put, get_item, as_text, as_dict,
}
use pscheduler.World.{World}
use pscheduler.PsJson.{json_load_schema}
use pscheduler.Proposal.{Hints}
use pscheduler.LimitProcessor.{Processor, process, Judgement}
use pscheduler.ApiServer.Script.{
  Script, query, fetched, task_and_duration, api_run_post, try, catch, catch_value, choose, given,
  ok_json, bad_request, conflict, error, not_found,
}
use pscheduler.ApiServer.Requests.{Request, Host, uuid_is_valid, with_access}

-- What `__evaluate_limits` returns: a tuple of four, or one of three with a response.
pub data Evaluated : Type 0 where
  four : Judgement → Evaluated
  three : (status : ℕ) → Evaluated

-- The hints of the database.
hints_of : Fields → Result Hints
hints_of end = ok []
hints_of (field k v m) = do s ← as_text v; rest ← hints_of m; ok ((k, s) ∷ rest)

-- The task with its schedule.
unfoldable pub limit_input : Host → (start : String) → (duration : Json) → Fields → Json
limit_input h start duration task = obj (
    put "run_schedule"
      (obj (
        field "start" (str (h.iso_datetime start))
          (field "duration" (str (h.iso_duration duration)) end)))
      task)

-- On the rows of the task.
unfoldable pub evaluated :
    World → Host → Option Processor → (start : String) → ℕ × List (List Json) → Result Evaluated
unfolding hints_of
evaluated w h processor start (zero, found) = ok (three 404)
evaluated w h none start (suc n, found) = ok (three 422)
evaluated w h (some p) start (suc n, (task_spec ∷ duration ∷ hints ∷ row) ∷ found) = do
  task ← as_dict task_spec
  m ← as_dict hints
  known ← hints_of m
  j ←
      process w p (record { task = limit_input h start duration task; hints = some known }) false
        true
  ok (four j)
evaluated w h (some p) start (suc n, found) = err (type_error "no row")

-- `passed, diags, response, priority = __evaluate_limits(task, start_time)`.
unfoldable pub unpacked : Evaluated → Result Judgement
unpacked (four j) = ok j
unpacked (three status) = err (value_error "not enough values to unpack (expected 4, got 3)")

-- The message of a run that the limits do not pass.
unfoldable pub diag_message : Judgement → Option String
diag_message j =
    if j.passed then none else some (concat ("Run forbidden by limits:\n" ∷ j.diags ∷ []))

unfoldable pub priority_json : Option ℤ → Json
priority_json none = null
priority_json (some n) = num n

-- The row that `api_run_post` returns: success, the UUID, whether there are conflicts, and a message.
pub record Posted : Type 0 where
  pub succeeded : Bool
  pub uuid : Json
  pub conflicts : Bool
  pub error_message : Option String

truth_of : Json → Bool
truth_of (bool b) = b
truth_of v = false

-- A text that is not empty.
text_of : Json → Option String
text_of (str String.[]) = none
text_of (str s) = some s
text_of v = none

unfoldable pub posted_of : ℕ × List (List Json) → Result Posted
unfolding truth_of text_of
posted_of (suc zero, (succeeded ∷ uuid ∷ conflicts ∷ error_message ∷ row) ∷ found) = ok (record {
  succeeded = truth_of succeeded;
  uuid = uuid;
  conflicts = truth_of conflicts;
  error_message = text_of error_message;
})
posted_of (n, found) =
    err (type_error "%d format: a number is required, not psycopg2.extensions.cursor")

-- A response with the message, which cannot be made of None.
unfoldable pub with_message : (String → Script) → Option String → Script
with_message respond' (some s) = respond' s
with_message respond' none = error "unsupported operand type(s) for +: 'NoneType' and 'str'"

-- `except KeyError`.
unfoldable pub is_missing : Result String → Bool
is_missing (err (key_error k)) = true
is_missing s = false

module _ (w : World) (h : Host) (r : Request) (processor : Option Processor) (task : String) where
  -- The limits are evaluated and the run is posted, with any exception as an error.
  unfoldable pub post_run : (start : String) → (run : Option String) → (Posted → Script) → Script
  post_run start run rest = query (task_and_duration task) λ reply.
      catch (do found ← fetched reply; e ← evaluated w h processor start found; unpacked e) error
        λ j.
          query
            (api_run_post task start run (diag_message j) (priority_json j.priority) (some j.diags))
            λ answer. catch (do found ← fetched answer; posted_of found) error rest

  -- The end of a POST.
  unfoldable pub answered : Posted → Script
  answered p = choose p.conflicts (with_message conflict p.error_message) (
      given p.error_message
        (try (as_text p.uuid) λ uuid. ok_json w (str (concat (r.base_url ∷ "/" ∷ uuid ∷ []))))
        error)

  -- The time of a run, as its text.
  unfoldable pub start_of : Json → Result String
  start_of v = do s ← get_item v "start-time"; text ← as_text s; m ← w.as_datetime text; ok text

  -- What follows a time that is missing, or that cannot be read.
  unfoldable pub with_start : Result String → (String → String) → (String → Script) → Script
  unfolding is_missing
  with_start s invalid rest =
      choose (is_missing s) (bad_request "Missing start time")
        (catch_value s (λ text. bad_request (invalid text)) rest)

  -- `tasks_uuid_runs(task)` for a POST.
  unfoldable pub runs_post : Script
  unfolding start_of
  runs_post = choose (not (uuid_is_valid h task)) not_found (
      with_access h r task (
        with_start (do v ← json_load_schema w (some 1) r.data'; start_of v)
          (λ text. concat ("Invalid JSON: " ∷ text ∷ [])) λ start. post_run start none answered))
