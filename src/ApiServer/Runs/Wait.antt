-- ===== src/ApiServer/Runs/Wait.antt =====
-- The handlers of runs.py that wait: `tasks_uuid_runs_run` for a GET, and
-- `tasks_uuid_runs_run_result`. Times are in milliseconds.
use pscheduler.Common.{
  ℕ, zero, suc, ◌*◌, String, Bool, true, false, not, ◌==◌, ◌&&◌, ◌||◌, ltb, str_eq, contains,
  concat, Option, none, some, List, [], ◌∷◌, Result, ok, err, type_error, index_error, ◌>>=◌,
  if◌then◌else◌,
}
use pscheduler.Json.{
  ℤ, pos, negsuc, Json, null, str, arr, obj, nil, cons, Fields, end, get, put, get_item, as_text,
  as_dict,
}
use pscheduler.Json.Equality.{json_eq}
use pscheduler.World.{World}
use pscheduler.ApiServer.Script.{
  Script, Reply, query, sleep, fetched, first_run, run_and_finished, try, catch, choose, given,
  ok_json, bad_request, error, not_found,
}
use pscheduler.ApiServer.Requests.{Request, Host, arg_boolean, arg_integer, uuid_is_valid}
use pscheduler.ApiServer.Tasks.Validate.{truthy}

-- `__runs_first_run`: the UUID, if there is one.
unfoldable pub first_of : ℕ × List (List Json) → Result (Option String)
first_of (zero, found) = ok none
first_of (n, (v ∷ row) ∷ found) = do s ← as_text v; ok (some s)
first_of (n, found) = err (type_error "no row")

unfoldable pub runs_first_run :
    (task : String) → (future : Bool) → (Option String → Script) → Script
runs_first_run task future rest =
    query (first_run task future) λ reply. try (do found ← fetched reply; first_of found) rest

-- The search for the first or the next run, `tries` times.
unfoldable pub find_run :
    (task : String) → (future waits : Bool) → (tries : ℕ) → (String → Script) → Script
find_run task future waits zero rest = not_found
find_run task future waits (suc tries) rest = runs_first_run task future λ found.
    given found
      (choose waits (sleep 1000 (find_run task future waits tries rest))
        (find_run task future waits tries rest))
      rest

-- The row of a run: its JSON, and whether it has finished.
unfoldable pub run_row : List (List Json) → Result (Json × Bool)
run_row ((result ∷ finished ∷ row) ∷ found) = ok (result, truthy finished)
run_row found = err (type_error "no row")

-- Whether the merged result is awaited and not there yet.
unfoldable pub is_unmerged : (wait_merged : Bool) → Json × Bool → Result Bool
is_unmerged false row = ok false
is_unmerged true (result, finished) = do
  v ← get_item result "result-full"
  ok (json_eq v null || not finished)

-- Whether what is awaited is not there yet; what is logged then asks for the merged result.
unfoldable pub is_awaited : (wait_local wait_merged : Bool) → Json × Bool → Result Bool
is_awaited false wait_merged row = is_unmerged wait_merged row
is_awaited true wait_merged (result, finished) = do
  v ← get_item result "result"
  let logged = do full ← get_item result "result-full"; ok true
  if json_eq v null then logged else is_unmerged wait_merged (result, finished)

-- `result['participants']`, where a first one that is None is the server's name.
unfoldable pub with_lead : (netloc : String) → Option Json → Fields → Result Fields
with_lead netloc none m = ok m
with_lead netloc (some (arr (cons null vs))) m =
    ok (put "participants" (arr (cons (str netloc) vs)) m)
with_lead netloc (some (arr (cons v vs))) m = ok m
with_lead netloc (some (arr nil)) m = err (index_error "list index out of range")
with_lead netloc (some (obj vs)) m = ok m
with_lead netloc (some (str String.[])) m = err (index_error "string index out of range")
with_lead netloc (some (str s)) m = ok m
with_lead netloc (some v) m = err (type_error "object is not subscriptable")

-- The links of a run, and the name of the server.
unfoldable pub run_json : Host → Request → (task run : String) → Json → Result Json
run_json h r task run result = do
  m ← as_dict result
  let href = h.beside r.url run
  let linked =
      put "result-href" (str (concat (href ∷ "/result" ∷ []))) (
        put "task-href" (str (concat (r.url_root ∷ "tasks/" ∷ task ∷ [])))
          (put "href" (str href) m))
  named ← with_lead (h.netloc r.url_root) (get "participants" linked) linked
  ok (obj named)

-- The seconds to wait.
abbrev pub default_wait : Option ℤ → ℤ
default_wait none = pos 30
default_wait (some n) = n

module _ (w : World) (h : Host) (r : Request) (task : String) where
  -- The response, with the last result that was seen.
  unfoldable pub run_response : (run : String) → Json → Script
  run_response run result = try (run_json h r task run result) (ok_json w)

  module _ (wait_local wait_merged : Bool) (run : String) where
    -- One look at the run, and the next if what is awaited is not there.
    unfoldable pub looked : (Json → Script) → Reply → Script
    looked again reply = catch (fetched reply) error λ found. choose (found.0 == 0) not_found (
        try (run_row found.1) λ row.
          try (is_awaited wait_local wait_merged row)
            λ waits. choose waits (sleep 500 (again row.0)) (run_response run row.0))

    -- `while tries`, from the last result on.
    unfoldable pub poll : (tries : ℕ) → Json → Script
    poll zero result = run_response run result
    poll (suc tries) result = query (run_and_finished task run) (looked (poll tries))

  -- `wait_time` seconds, at 0.5 s a try.
  unfoldable pub poll_run :
      (wait_local wait_merged : Bool) → (wait_time : ℕ) → (run : String) → Script
  poll_run wait_local wait_merged wait_time run =
      poll wait_local wait_merged run (if wait_local || wait_merged then wait_time * 2 else 1)
        (obj end)

  -- `int(wait_time / 0.5)` tries for the first or the next run.
  unfoldable pub search_run : (future : Bool) → (wait_time : ℕ) → (String → Script) → Script
  search_run future wait_time rest =
      let waits = ltb 0 wait_time in
      find_run task future waits (if waits then wait_time * 2 else 1) rest

  -- With the time to wait.
  unfoldable pub run_waited : (run : String) → (wait_local wait_merged : Bool) → ℤ → Script
  run_waited run wait_local wait_merged (negsuc n) = bad_request "Wait time must be >= 0"
  run_waited run wait_local wait_merged (pos wait_time) =
      choose (contains ("next" ∷ "first" ∷ []) run)
        (search_run (str_eq run "next") wait_time (poll_run wait_local wait_merged wait_time))
        (poll_run wait_local wait_merged wait_time run)

  -- For a GET.
  unfoldable pub run_get : (run : String) → Script
  run_get run =
      let wait_local = arg_boolean r "wait-local" in
      let wait_merged = arg_boolean r "wait-merged" in
      choose (not (uuid_is_valid h task)) not_found (
        choose (not (contains ("first" ∷ "next" ∷ []) run) && not (uuid_is_valid h run)) not_found (
          choose (wait_local && wait_merged) (bad_request "Cannot wait on local and merged results")
            (try (arg_integer h r "wait")
              λ wait_time. run_waited run wait_local wait_merged (default_wait wait_time))))
