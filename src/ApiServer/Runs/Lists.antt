-- ===== src/ApiServer/Runs/Lists.antt =====
-- The lists of runs.py: the proposed times of a task and its runs, with `json_query_simple` of json.py.
use pscheduler.Common.{String, not, Option, List, [], ◌∷◌, Result, ok, err, type_error, ◌>>=◌}
use pscheduler.Json.{Json, arr}
use pscheduler.World.{World}
use pscheduler.BatchProcessor.{array}
use pscheduler.ApiServer.Script.{
  Script, query, fetched, task_exists, runs_of, proposed_times, try, catch_value, choose, ok_json,
  bad_request, not_found, Query,
}
use pscheduler.ApiServer.Requests.{
  Request, Host, arg_boolean, arg_cardinal, arg_integer, arg_datetime, uuid_is_valid,
}
use pscheduler.ApiServer.Runs.Limits.{priority_json}
use pscheduler.ApiServer.Runs.Change.{exists_of}

-- The first column.
unfoldable pub column : List (List Json) → Result (List Json)
column [] = ok []
column ((v ∷ row) ∷ found) = do vs ← column found; ok (v ∷ vs)
column ([] ∷ found) = err (type_error "no row")

-- `json_query_simple(query, args, empty_ok=True)`.
unfoldable pub json_query_simple : World → Query → Script
json_query_simple w q =
    query q λ reply.
      try (do found ← fetched reply; column found.1) λ result. ok_json w (arr (array result))

module _ (w : World) (h : Host) (r : Request) (task : String) where
  -- `arg_datetime('start')` and `arg_datetime('end')`.
  range : Result (Option String × Option String)
  range = do
    range_start ← arg_datetime w r "start"
    range_end ← arg_datetime w r "end"
    ok (range_start, range_end)

  -- `task_uuid_runtimes(task)`.
  unfoldable pub runtimes_get : Script
  unfolding range
  runtimes_get = choose (not (uuid_is_valid h task)) not_found (
      catch_value range (λ text. bad_request "Invalid start or end time")
        λ times. query (task_exists task) λ reply.
          -- `task_exists(task)`.
          try (do found ← fetched reply; exists_of found)
            λ exists. choose (not exists) not_found (
              try (arg_integer h r "priority") λ proposed.
                json_query_simple w (proposed_times task times.0 times.1 (priority_json proposed))))

  -- `tasks_uuid_runs(task)` for a GET.
  unfoldable pub runs_get : Script
  unfolding range
  runs_get = choose (not (uuid_is_valid h task)) not_found (
      catch_value (do times ← range; limit ← arg_cardinal h r "limit"; ok (times, limit))
        bad_request
        λ (times, limit).
          json_query_simple w (runs_of task times.0 times.1 (arg_boolean r "upcoming") limit))
