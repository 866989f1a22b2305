-- ===== src/ApiServer/Runs/Change.antt =====
-- `tasks_uuid_runs_run` of runs.py for a PUT and a DELETE.
use pscheduler.Common.{
  ℕ, zero, suc, String, Bool, not, ◌==◌, ◌&&◌, Option, some, List, ◌∷◌, Result, ok, err, type_error,
  ◌>>=◌,
}
use pscheduler.Json.{Json, bool, get, as_dict, Fields}
use pscheduler.World.{World}
use pscheduler.PsJson.{json_load_schema, json_dump}
use pscheduler.LimitProcessor.{Processor}
use pscheduler.ApiServer.Script.{
  Script, Reply, raise, query, fetched, run_exists, delete_run, set_part_data_full, set_result_full,
  try, catch_value, choose, given, ok_text, bad_request, conflict, error, not_found,
}
use pscheduler.ApiServer.Requests.{Request, Host, uuid_is_valid, with_access}
use pscheduler.ApiServer.Tasks.Validate.{truthy}
use pscheduler.ApiServer.Runs.Limits.{Posted, post_run, with_start, start_of, with_message}

-- The answer of `SELECT EXISTS`.
unfoldable pub exists_of : ℕ × List (List Json) → Result Bool
exists_of (suc zero, (bool b ∷ row) ∷ found) = ok b
exists_of (n, found) =
    err (type_error "%d format: a number is required, not psycopg2.extensions.cursor")

-- `rowcount`, of a statement that is to change one row.
unfoldable pub one_changed : Reply → Script
one_changed reply =
    try (fetched reply) λ found. choose (not (found.0 == 1)) not_found (ok_text "OK")

module _ (w : World) (h : Host) (r : Request) (processor : Option Processor)
    (task run : String) where
  -- The end of a PUT of a run that was not there.
  unfoldable pub put_posted : Posted → Script
  put_posted p =
      choose p.conflicts (with_message conflict p.error_message)
        (choose (not p.succeeded) (with_message error p.error_message) (ok_text "OK"))

  -- A run that does not exist is posted as a whole.
  unfoldable pub full_put : Json → Script
  full_put run_data =
      with_start w h r processor task (start_of w h r processor task run_data)
        (λ text. "Invalid start time")
        λ start. post_run w h r processor task start (some run) put_posted

  -- The merged result, and whether the run has succeeded.
  unfoldable pub put_result : Fields → Json → Script
  put_result m result_full =
      given (get "succeeded" m) (bad_request "Missing success value") λ succeeded.
        query (set_result_full task run (json_dump w result_full) (truthy succeeded)) one_changed

  -- Of a run that exists one thing is updated. With neither of the two the handler returns None, of
  -- which Flask makes a TypeError.
  unfoldable pub partial_put : Fields → Script
  partial_put m =
      given (get "part-data-full" m)
        (given (get "result-full" m)
          (raise (type_error "The view function did not return a valid response.")) (put_result m))
        λ part. query (set_part_data_full task run (json_dump w part)) one_changed

  unfoldable pub run_put_data : Json → Script
  run_put_data run_data = query (run_exists task run) λ reply.
      try (do found ← fetched reply; exists_of found)
        λ exists. choose (not exists) (full_put run_data) (try (as_dict run_data) partial_put)

  -- For a PUT.
  unfoldable pub run_put : Script
  run_put = choose (not (uuid_is_valid h task && uuid_is_valid h run)) not_found (
      with_access h r task (
        catch_value (json_load_schema w (some 1) r.data')
          (λ text. bad_request "Invalid or missing run data") run_put_data))

  -- For a DELETE.
  unfoldable pub run_delete : Script
  run_delete =
      choose (not (uuid_is_valid h task && uuid_is_valid h run)) not_found
        (with_access h r task (query (delete_run task run) one_changed))
