-- ===== src/ApiServer/Runs/Outcome.antt =====
-- `tasks_uuid_runs_run_result` of runs.py: the merged result of a run, which may be formatted.
use pscheduler.Common.{
  ℕ, zero, suc, String, Bool, false, not, ◌==◌, ◌&&◌, str_eq, contains, concat, lookup, none, some,
  List, [], ◌∷◌, Result, ok, err, type_error, if◌then◌else◌,
}
use pscheduler.Json.{Json, null, obj, field, end, get_item, as_text}
use pscheduler.Json.Equality.{json_eq}
use pscheduler.World.{World, PluginReply}
use pscheduler.PsJson.{json_dump}
use pscheduler.CidrListUrl.Lines.{rstrip}
use pscheduler.ApiServer.Script.{
  Script, Reply, query, sleep, invoke, fetched, run_result, try, choose, given, ok_json, ok_text,
  bad_request, error, not_found,
}
use pscheduler.ApiServer.Requests.{Request, Host, arg_boolean, uuid_is_valid}
use pscheduler.ApiServer.Tasks.Validate.{truthy}
use pscheduler.ApiServer.Runs.Wait.{runs_first_run}

-- A row: the type of the test, the merged result, and the test's specification.
pub record Row : Type 0 where
  pub test_type : Json
  pub merged_result : Json
  pub test_spec : Json

unfoldable pub row_of : List (List Json) → Result Row
row_of ((test_type ∷ merged_result ∷ test_spec ∷ []) ∷ found) =
    ok (record { test_type = test_type; merged_result = merged_result; test_spec = test_spec })
row_of found = err (type_error "no row")

-- `request.args.get('format')`, or JSON.
unfoldable pub format_of : Request → String
format_of r = elim (lookup "format" r.args) [ none ↦ "application/json" | some format ↦ format ]

abbrev pub formats : List String
formats = "application/json" ∷ "text/html" ∷ "text/plain" ∷ []

-- What the plug-in of the test makes of the result.
unfoldable pub formatted : Result PluginReply → Script
formatted reply = try reply λ done.
    choose (not (done.returncode == 0))
      (error (concat ("Failed to format result: " ∷ done.stderr ∷ [])))
      (ok_text (rstrip done.stdout))

-- A run that has failed, in a format.
unfoldable pub run_failed : (format : String) → Script
run_failed format = choose (str_eq format "text/plain") (ok_text "Run failed.") (
    choose (str_eq format "text/html") (ok_text "<p>Run failed.</p>")
      (bad_request (concat ("Unsupported format " ∷ format ∷ []))))

module _ (w : World) (h : Host) (r : Request) (task : String) where
  unfoldable pub shown : (format : String) → Row → Script
  shown format row = choose (str_eq format "application/json") (ok_json w row.merged_result) (
      try (get_item row.merged_result "succeeded") λ succeeded.
        choose (not (truthy succeeded)) (run_failed format) (
          try (as_text row.test_type) λ test_type.
            invoke
              (record {
                kind = "test";
                name = test_type;
                operation = "result-format";
                stdin =
                    json_dump w
                      (obj (field "spec" row.test_spec (field "result" row.merged_result end)));
              })
              formatted))

  -- One look at the run.
  unfoldable pub looked : (wait : Bool) (format : String) → (again : Script) → Reply → Script
  looked wait format again reply = try (fetched reply) λ found. choose (found.0 == 0) not_found (
      try (row_of found.1) λ row.
        choose (not wait && json_eq row.merged_result null) (sleep 250 again) (shown format row))

  -- `while tries`, and what follows when there are none left.
  unfoldable pub poll : (run : String) (wait : Bool) (format : String) → (tries : ℕ) → Script
  poll run wait format zero = not_found
  poll run wait format (suc tries) =
      query (run_result task run) (looked wait format (poll run wait format tries))

  unfoldable pub poll_result : (format run : String) → Script
  poll_result format run =
      let wait = arg_boolean r "wait" in poll run wait format (if wait then 40 else 1)

  -- The first run's UUID in place of 'first', which the check of the UUID has refused before.
  unfoldable pub found_first : (format run : String) → Script
  found_first format run =
      choose (str_eq run "first")
        (runs_first_run task false λ found. given found not_found (poll_result format))
        (poll_result format run)

  unfoldable pub result_get : (run : String) → Script
  result_get run = choose (not (uuid_is_valid h task && uuid_is_valid h run)) not_found (
      let format = format_of r in
      choose (not (contains formats format))
        (bad_request (concat ("Unsupported format " ∷ format ∷ []))) (found_first format run))
