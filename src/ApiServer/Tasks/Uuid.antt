-- ===== src/ApiServer/Tasks/Uuid.antt =====
-- The handlers of one task, and of all tasks for a GET, in tasks.py.
use pscheduler.Common.{
  ℕ, zero, String, Bool, true, false, not, ◌==◌, concat, join, Option, none, some, List, [], ◌∷◌,
  Result, ok, err, assertion_error, type_error, ◌>>=◌, ◌>>◌, guard, if◌then◌else◌,
}
use pscheduler.Json.{
  Json, null, num, pos, str, arr, obj, Fields, get, put, get_item, as_text, as_list, as_dict,
}
use pscheduler.Json.Equality.{json_eq}
use pscheduler.World.{World}
use pscheduler.PsJson.{json_load, json_load_schema, json_dump}
use pscheduler.Proposal.{hints_json}
use pscheduler.Rewriter.{remove}
use pscheduler.BatchProcessor.{array}
use pscheduler.BatchProcessor.Transform.{characters}
use pscheduler.LimitProcessor.{Processor, process}
use pscheduler.ApiServer.Script.{
  Script, Reply, rows, refused, failed, query, fetched, try, raise, catch, invoke, catch_value,
  choose, tasks_matching, test_and_spec, api_task_post, api_task_disable, ok_json, ok_text,
  bad_request, forbidden, not_found, error, no_can_do,
}
use pscheduler.ApiServer.Requests.{
  Request, Host, arg_boolean, arg_cardinal, uuid_is_valid, request_hints, with_access,
}
use pscheduler.ApiServer.Tasks.Create.{limits_text, limits_of, or_null}

-- The links that are added to the details of a task.
unfoldable pub with_links : String → Fields → Fields
with_links uri detail = put "next-run-href" (str (concat (uri ∷ "/runs/next" ∷ []))) (
    put "first-run-href" (str (concat (uri ∷ "/runs/first" ∷ [])))
      (put "runs-href" (str (concat (uri ∷ "/runs" ∷ []))) (put "href" (str uri) detail)))

unfoldable pub detailed : (detail : Bool) → (uri : String) → Fields → Result Json
detailed true uri plain = do
  d ← get_item (obj plain) "detail"
  details ← as_dict d
  ok (obj (put "detail" (obj (with_links uri details)) plain))
detailed false uri plain = ok (obj (remove "detail" plain))

-- A task as it is returned: without its participants, and its details only if they are asked for.
unfoldable pub task_json : (detail : Bool) → (uri : String) → Json → Result Json
task_json detail uri json = do
  guard (not (json_eq json null)) (assertion_error "Database did not return details.")
  m ← as_dict json
  let plain = remove "participants" (put "href" (str uri) m)
  detailed detail uri plain

-- One row: its task, and its UUID.
unfoldable pub task_returned :
    (uri_base : String) → (expanded detail single : Bool) → List Json → Result Json
task_returned uri_base expanded detail single (json ∷ uuid ∷ row) = do
  id ← as_text uuid
  let uri = if single then uri_base else concat (uri_base ∷ "/" ∷ id ∷ [])
  if not expanded then ok (str uri) else task_json detail uri json
task_returned uri_base expanded detail single row = err (type_error "no row")

-- `__tasks_get_filtered`, on the rows of its query.
unfoldable pub tasks_returned :
    (uri_base : String) → (expanded detail single : Bool) → List (List Json) → Result (List Json)
tasks_returned uri_base expanded detail single [] = ok []
tasks_returned uri_base expanded detail single (row ∷ found) = do
  task ← task_returned uri_base expanded detail single row
  tasks ← tasks_returned uri_base expanded detail single found
  ok (task ∷ tasks)

unfoldable pub tasks_get_filtered :
    Request
    → (contained task : Option String) → (expanded detail single : Bool) → (List Json → Script)
    → Script
tasks_get_filtered r contained task expanded detail single rest =
    query (tasks_matching contained task) λ reply.
      try (do found ← fetched reply; tasks_returned r.base_url expanded detail single found.1) rest

-- `arg_json("json")`: the text, if it is JSON.
arg_json : World → Option String → Result (Option String)
arg_json w none = ok none
arg_json w (some text) = do v ← json_load w text; ok (some text)

module _ (w : World) (h : Host) (r : Request) where
  -- `tasks()` for a GET; `wanted` is the argument "json".
  unfoldable pub tasks_get : (wanted : Option String) → Script
  unfolding arg_json
  tasks_get wanted = catch_value (arg_json w wanted) bad_request λ json_query.
      tasks_get_filtered r json_query none (arg_boolean r "expanded") (arg_boolean r "detail") false
        λ tasks. ok_json w (arr (array tasks))

  -- The first of the tasks.
  first_task : List Json → Script
  first_task [] = not_found
  first_task (task ∷ tasks) = ok_json w task

  -- `tasks_uuid(uuid)` for a GET.
  unfoldable pub tasks_uuid_get : (uuid : String) → Script
  unfolding first_task
  tasks_uuid_get uuid =
      choose (not (uuid_is_valid h uuid)) not_found
        (tasks_get_filtered r none (some uuid) true (arg_boolean r "detail") true first_task)

  -- `tasks_uuid(uuid)` for a DELETE.
  unfoldable pub tasks_uuid_delete : (uuid : String) → Script
  tasks_uuid_delete uuid = choose (not (uuid_is_valid h uuid)) not_found (
      with_access h r uuid (
        query (api_task_disable uuid (h.without_netloc r.url))
          λ reply. try (fetched reply) λ done. ok_text "OK"))

  -- What came of the post of a subordinate's task.
  subordinate_posted : Reply → Script
  subordinate_posted (refused text) = bad_request (concat ("Task error: " ∷ text ∷ []))
  subordinate_posted (failed e) = raise e
  subordinate_posted (rows zero found) = error "Task post failed; poster returned nothing."
  subordinate_posted (rows n found) = ok_text r.base_url

  cardinal_json : Option ℕ → Json
  cardinal_json none = null
  cardinal_json (some n) = num (pos n)

  -- A task that the limits pass. `"\n".join(diags)` takes the text of the diagnostics apart.
  unfoldable pub subordinate_post :
      Json → (participant : Option ℕ) → (hints limits diags : String) → Script
  unfolding subordinate_posted cardinal_json
  subordinate_post json_in participant hints limits diags =
      try (get_item json_in "participants") λ participants. try (as_dict json_in) λ m.
        query
          (api_task_post r.data' participants hints limits (cardinal_json participant)
            (or_null (get "priority" m)) (some (h.last_in_path r.url)) true
            (join "\n" (characters diags)))
          subordinate_posted

  -- The limits of a subordinate: it does not rewrite the task.
  unfoldable pub subordinate_limited : Option Processor → Json → (participant : Option ℕ) → Script
  subordinate_limited none json_in participant = no_can_do (
      concat (
        "Limit processor is not initialized: "
        ∷ "Limit processor is not initialized.  See system logs." ∷ []))
  subordinate_limited (some p) json_in participant = request_hints h r λ hints.
      try (process w p (record { task = json_in; hints = some hints }) false false) λ j.
        choose (not j.passed) (forbidden (concat ("Task forbidden by limits:\n" ∷ j.diags ∷ []))) (
          subordinate_post json_in participant (json_dump w (hints_json (some hints)))
            (limits_text w (limits_of j.limits)) j.diags)

  -- `tasks_uuid(uuid)` for a POST, by a lead participant.
  unfoldable pub tasks_uuid_post : (uuid : String) → Option Processor → Script
  tasks_uuid_post uuid processor = choose (not (uuid_is_valid h uuid)) not_found (
      catch_value (json_load_schema w (some 3) r.data')
        (λ text. bad_request (concat ("Invalid JSON: " ∷ text ∷ [])))
        λ json_in.
          catch_value (arg_cardinal h r "participant")
            (λ text. bad_request (concat ("Invalid participant: " ∷ text ∷ [])))
            λ participant. subordinate_limited processor json_in participant)

  -- The text of a spec and the name of its test; a spec that is not there is no input at all.
  spec_and_test : List (List Json) → Result (String × String)
  spec_and_test ((null ∷ test ∷ row) ∷ found) = do name ← as_text test; ok ("", name)
  spec_and_test ((spec ∷ test ∷ row) ∷ found) = do
    text ← as_text spec
    name ← as_text test
    ok (text, name)
  spec_and_test found = err (type_error "no row")

  -- What the plug-in gives, after the name of the test.
  cli_of : (test stdout : String) → Result String
  cli_of test stdout = do
    v ← json_load w stdout
    words ← as_list v
    ok (json_dump w (arr (array (str test ∷ words))))

  -- `tasks_uuid_cli(uuid)`.
  unfoldable pub tasks_uuid_cli : (uuid : String) → Script
  unfolding spec_and_test cli_of
  tasks_uuid_cli uuid =
      let fails = λ (text : String). error (concat ("Unable to convert test spec: " ∷ text ∷ [])) in
      choose (not (uuid_is_valid h uuid)) not_found (
        query (test_and_spec uuid) λ reply. try (fetched reply) λ found.
          choose (found.0 == 0) not_found (
            try (spec_and_test found.1) λ (json, test).
              invoke
                (record { kind = "test"; name = test; operation = "spec-to-cli"; stdin = json })
                λ answer. catch answer fails λ done.
                  choose (not (done.returncode == 0)) (fails done.stderr)
                    (try (cli_of test done.stdout) ok_text)))
