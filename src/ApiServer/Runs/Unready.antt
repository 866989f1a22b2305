-- ===== src/ApiServer/Runs/Unready.antt =====
-- What becomes of a run when there is no limit processor.
use pscheduler.Common.{
  ℕ, zero, suc, ◌≡◌, ◌∙◌, ap, refl, String, true, false, Option, none, some, List, [], ◌∷◌, Result,
  ok, err, ◌>>=◌, value_error, message,
}
use pscheduler.Json.{Json, str, bool, get_item, as_text}
use pscheduler.World.{World, Moment}
use pscheduler.PsJson.{json_load_schema}
use pscheduler.LimitProcessor.{Judgement}
use pscheduler.ApiServer.Script.{
  Query, task_and_duration, task_hints_and_key, run_exists, Reply, rows, Script, Response, respond,
  raise, query, invoke, http, sleep, try, catch, catch_value, choose, given, fetched, error,
}
use pscheduler.ApiServer.Requests.{
  Request, Host, uuid_is_valid, access_write_task, owner_of, admitted, with_access,
}
use pscheduler.ApiServer.Runs.Limits.{
  evaluated, unpacked, Posted, post_run, with_start, is_missing, start_of, runs_post,
}
use pscheduler.ApiServer.Runs.Change.{run_put, run_put_data, full_put, exists_of}

-- The statements that a script runs, in order, and its response, for what the database answers.
abbrev pub trail : (Query → Reply) → Script → List Query × Option Response
trail answers (respond r) = ([], some r)
trail answers (raise e) = ([], none)
trail answers (query q rest) =
    let (queries, response) = trail answers (rest (answers q)) in (q ∷ queries, response)
trail answers (invoke c rest) = ([], none)
trail answers (http c rest) = ([], none)
trail answers (sleep n rest) = trail answers rest

-- One statement before others.
abbrev pub after : Query → List Query × Option Response → List Query × Option Response
after q (queries, response) = (q ∷ queries, response)

-- The response that is meant to say 422.
abbrev pub unpack_failure : Response
unpack_failure = record { status = 500; body = "not enough values to unpack (expected 4, got 3)\n" }

unready :
    (w : World) (h : Host) (start : String) (n : ℕ) (found : List (List Json))
    → (do e ← evaluated w h none start (n, found); unpacked e)
      ≡ err (value_error "not enough values to unpack (expected 4, got 3)")
unfolding evaluated unpacked
unready w h start zero found = refl
unready w h start (suc n) found = refl

unready-trail :
    (w : World) (h : Host) (start : String) (answers : Query → Reply) (k : Judgement → Script)
    (n : ℕ) (found : List (List Json)) (reply : Reply)
    → reply ≡ rows n found
    → trail answers
        (catch (do x ← fetched reply; v ← evaluated w h none start x; unpacked v) error k)
      ≡ ([], some unpack_failure)
unfolding fetched catch message
unready-trail w h start answers k n found reply e = rw (e, unready w h start n found) refl

module _ (w : World) (h : Host) (r : Request) (task : String) (answers : Query → Reply) where
  post_run-trail :
      (start : String) (run : Option String) (rest : Posted → Script) (n : ℕ)
      (found : List (List Json))
      → answers (task_and_duration task) ≡ rows n found
      → trail answers (post_run w h r none task start run rest)
        ≡ (task_and_duration task ∷ [], some unpack_failure)
  unfolding post_run
  post_run-trail start run rest n found e =
      ap (after (task_and_duration task)) (unready-trail w h start answers _ n found _ e)

  -- The time can be read.
  abbrev pub HasStart : Json → String → Type 0
  HasStart v start =
      (get_item v "start-time" ≡ ok (str start)) × ((m : Moment) × (w.as_datetime start ≡ ok m))

  start_of-HasStart :
      (v : Json) (start : String) → HasStart v start → start_of w h r none task v ≡ ok start
  unfolding start_of as_text
  start_of-HasStart v start (e, (m, d)) = rw (e, d) refl

  with_start-trail :
      (s : Result String) (invalid : String → String) (rest : String → Script) (start : String)
      → s ≡ ok start
      → trail answers (with_start w h r none task s invalid rest) ≡ trail answers (rest start)
  unfolding with_start is_missing choose catch_value
  with_start-trail s invalid rest start e = rw e refl

  -- The requester of the request may write to the task.
  abbrev pub MayWrite : Type 0
  MayWrite =
      (n : ℕ) × ((found : List (List Json)) × (requester : String) × (key : Option String)
        × (answers (task_hints_and_key task) ≡ rows n found)
        × (owner_of (n, found) ≡ ok (some requester, key))
        × (access_write_task h r requester key ≡ true))

  with_access-trail :
      (rest : Script)
      → MayWrite
      → trail answers (with_access h r task rest)
        ≡ after (task_hints_and_key task) (trail answers rest)
  unfolding with_access admitted fetched try given choose
  with_access-trail rest (n, (found, requester, key, e, o, a)) = rw (e, o, a) refl

  -- The body of the request says a time.
  abbrev pub Asks : Json → String → Type 0
  Asks v start = (json_load_schema w (some 1) r.data' ≡ ok v) × HasStart v start

  runs_post-trail :
      (v : Json) (start : String) (n : ℕ) (found : List (List Json))
      → uuid_is_valid h task ≡ true
      → MayWrite
      → Asks v start
      → answers (task_and_duration task) ≡ rows n found
      → trail answers (runs_post w h r none task)
        ≡ (task_hints_and_key task ∷ task_and_duration task ∷ [], some unpack_failure)
  unfolding runs_post choose
  runs_post-trail v start n found valid may (loaded, says) e = rw valid (
      with_access-trail _ may
      ∙ ap (after (task_hints_and_key task)) (
          with_start-trail _ _ _ start (rw loaded (start_of-HasStart v start says))
          ∙ post_run-trail start none _ n found e))

  run_put_data-trail :
      (run : String) (v : Json)
      → answers (run_exists task run) ≡ rows 1 ((bool false ∷ []) ∷ [])
      → trail answers (run_put_data w h r none task run v)
        ≡ after (run_exists task run) (trail answers (full_put w h r none task run v))
  unfolding run_put_data fetched try exists_of choose
  run_put_data-trail run v absent = rw absent refl

  full_put-trail :
      (run : String) (v : Json) (start : String) (n : ℕ) (found : List (List Json))
      → HasStart v start
      → answers (task_and_duration task) ≡ rows n found
      → trail answers (full_put w h r none task run v)
        ≡ (task_and_duration task ∷ [], some unpack_failure)
  unfolding full_put
  full_put-trail run v start n found says e =
      with_start-trail _ _ _ start (start_of-HasStart v start says)
      ∙ post_run-trail start (some run) _ n found e

  run_put-trail :
      (run : String) (v : Json) (start : String) (n : ℕ) (found : List (List Json))
      → uuid_is_valid h task ≡ true
      → uuid_is_valid h run ≡ true
      → MayWrite
      → Asks v start
      → answers (run_exists task run) ≡ rows 1 ((bool false ∷ []) ∷ [])
      → answers (task_and_duration task) ≡ rows n found
      → trail answers (run_put w h r none task run) ≡ (
        task_hints_and_key task ∷ run_exists task run ∷ task_and_duration task ∷ [],
        some unpack_failure,
      )
  unfolding run_put choose catch_value
  run_put-trail run v start n found valid valid_run may (loaded, says) absent e =
      rw (valid, valid_run)
        (with_access-trail _ may
          ∙ rw loaded (
              ap (after (task_hints_and_key task)) (
                run_put_data-trail run v absent
                ∙ ap (after (run_exists task run)) (full_put-trail run v start n found says e))))

-- Without a limit processor no run is posted: where the requester may write to the task and the
-- request says a time that can be read, a POST of a run and a PUT of one that is not there run no
-- statement but those that look for the task's requester, for the run (on a PUT) and for the task, and
-- respond with 500 and the message of an exception, since three values are unpacked as four, and not
-- with 422.
pub unready-fails :
    (w : World) (h : Host) (r : Request) (task run : String) (answers : Query → Reply) (v : Json)
    (start : String) (n : ℕ) (found : List (List Json))
    → uuid_is_valid h task ≡ true
    → uuid_is_valid h run ≡ true
    → MayWrite w h r task answers
    → Asks w h r task answers v start
    → answers (run_exists task run) ≡ rows 1 ((bool false ∷ []) ∷ [])
    → answers (task_and_duration task) ≡ rows n found
    → (trail answers (runs_post w h r none task)
        ≡ (task_hints_and_key task ∷ task_and_duration task ∷ [], some unpack_failure))
      × (trail answers (run_put w h r none task run) ≡ (
        task_hints_and_key task ∷ run_exists task run ∷ task_and_duration task ∷ [],
        some unpack_failure,
      ))
unready-fails w h r task run answers v start n found valid valid_run may asks absent e = (
  runs_post-trail w h r task answers v start n found valid may asks e,
  run_put-trail w h r task answers run v start n found valid valid_run may asks absent e,
)
