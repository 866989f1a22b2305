-- ===== src/ApiServer/Tasks/Create.antt =====
-- The creation of a task: posted disabled to the local database, then to the other participants,
-- and enabled once all have taken it.
pub mod Steps
pub mod Reached
use pscheduler.Common.{
  ℕ, zero, suc, String, Bool, true, false, not, ◌==◌, concat, join, map, message, Option, none,
  some, List, [], ◌∷◌, ◌++◌, Result, ok, err, Error, key_error, type_error, ◌>>=◌, if◌then◌else◌,
}
use pscheduler.Json.{
  Json, null, bool, num, pos, str, arr, obj, Items, nil, cons, Fields, field, end, get, put,
  get_item, as_text, as_list, as_dict,
}
use pscheduler.World.{World}
use pscheduler.PsJson.{json_dump}
use pscheduler.JqFilter.{shown}
use pscheduler.Proposal.{Hints, hints_json}
use pscheduler.BatchProcessor.{array}
use pscheduler.LimitProcessor.{Judgement}
use pscheduler.Api.{Hosts, api_url_hostport}
use pscheduler.ApiServer.Script.{
  Script, Reply, rows, refused, failed, query, http, Call, api_task_post, api_task_disable,
  api_task_enable, set_limits_passed, fetched, try, raise, bad_request, error, ok_json, see_other,
  catch, choose, given,
}
use pscheduler.ApiServer.Script
use pscheduler.ApiServer.Requests.{Request, Host, arg_boolean}

-- `SELECT api_task_disable(uuid, template)`, and the response, whatever comes of it.
unfoldable pub give_up : Host → Request → (uuid : String) → String → String → Script
give_up h r uuid part_name text =
    query (api_task_disable uuid (h.without_netloc (concat (r.url ∷ "/" ∷ uuid ∷ []))))
      λ reply. error (concat ("Error while tasking " ∷ part_name ∷ ": " ∷ text ∷ []))

-- `result["detail"]["spec-limits-passed"]`, added to the limits that have been passed; a KeyError
-- adds nothing.
unfoldable pub more_limits : Json → List Json → Result (List Json)
more_limits result limits =
    elim (do detail ← get_item result "detail"; get_item detail "spec-limits-passed") [
      | ok details ↦ do vs ← as_list details; ok (limits ++ vs)
      | err e ↦ elim e [ key_error k ↦ ok limits | other ↦ err other ]
    ]

-- `task_params`, of the participant of that number.
unfoldable pub task_params : Fields → ℕ → Json
task_params task n = elim (get "_key" task) [
  | none ↦ obj (field "participant" (num (pos n)) end)
  | some key ↦ obj (field "key" key (field "participant" (num (pos n)) end))
]

-- What the list of limits is in JSON.
unfoldable pub limits_text : World → List Json → String
limits_text w limits = json_dump w (arr (array limits))

-- The two requests to one participant: the post of the task, and its details.
unfoldable pub task_one :
    World
    → Host
    → Hosts
    → Request
    → (uuid : String) → Fields
    → (n : ℕ) → (part_name : String) → List Json
    → (List Json → Script)
    → Script
task_one w h hosts r uuid task n part_name limits rest =
    try (api_url_hostport hosts (some part_name) (concat ("tasks/" ∷ uuid ∷ []))) λ post_url.
      http (Script.post post_url (task_params task n) (obj task)) λ reply. try reply λ posted.
        choose (not (posted.0 == 200))
          (give_up h r uuid part_name
            (concat ("Unable to post task to " ∷ part_name ∷ ": " ∷ shown w posted.1 ∷ [])))
          (http (Script.get post_url (obj (field "detail" (bool true) end))) λ answer.
            try answer λ details.
              choose (not (details.0 == 200))
                (give_up h r uuid part_name (
                  concat (
                    "Unable to fetch posted task from "
                    ∷ part_name
                    ∷ ": "
                    ∷ shown w details.1
                    ∷ [])))
                (try (more_limits details.1 limits) rest))

-- The participants from the one of a number on.
unfoldable pub task_others :
    World
    → Host
    → Hosts
    → Request
    → (uuid : String) → Fields
    → (n : ℕ) → List String
    → List Json
    → (List Json → Script)
    → Script
task_others w h hosts r uuid task n [] limits rest = rest limits
task_others w h hosts r uuid task n (part_name ∷ others) limits rest =
    task_one w h hosts r uuid task n part_name limits
      λ passed. task_others w h hosts r uuid task (suc n) others passed rest

-- The arguments that go on with a redirection.
kept : Request → List String → List String
kept r [] = []
kept r (arg ∷ args) = let rest = kept r args in if arg_boolean r arg then arg ∷ rest else rest

with_params : String → List String → String
with_params url [] = url
with_params url (p ∷ params) = concat (url ∷ "?" ∷ join "&" (p ∷ params) ∷ [])

-- The response for a task that was created.
unfoldable pub created : World → Request → (uuid : String) → Script
unfolding kept with_params
created w r uuid =
    let task_url = concat (r.base_url ∷ "/" ∷ uuid ∷ []) in
    choose (not (arg_boolean r "expanded")) (ok_json w (str task_url))
      (see_other (with_params task_url (kept r ("detail" ∷ "pretty" ∷ []))))

-- The list of limits is stored, and the task enabled.
unfoldable pub enable : World → Request → (uuid : String) → List Json → Script
enable w r uuid limits = query (set_limits_passed uuid (limits_text w limits)) λ stored.
    try (fetched stored) λ done. query (api_task_enable uuid "") λ enabled.
      catch (fetched enabled)
        (λ text. error (concat ("Failed to enable task " ∷ uuid ∷ ".  See system logs." ∷ [])))
        λ x. created w r uuid

-- `range(1, nparticipants)` leaves the first out.
abbrev pub others_of : List String → List String
others_of [] = []
others_of (lead ∷ others) = others

-- What the one row of a posted task says: its UUID. Of another number of rows the text of the
-- exception cannot be formatted, which is another exception.
unfoldable pub uuid_of : ℕ → List (List Json) → Result String
uuid_of (suc zero) ((v ∷ row) ∷ found) = as_text v
uuid_of n found = err (type_error "%d format: a number is required, not psycopg2.extensions.cursor")

abbrev pub or_null : Option Json → Json
or_null none = null
or_null (some v) = v

abbrev pub strs : List String → List Json
strs [] = []
strs (s ∷ ss) = str s ∷ strs ss

-- `limits_passed` of a judgement.
abbrev pub limits_of : List (List Json) → List Json
limits_of [] = []
limits_of (l ∷ ls) = arr (array l) ∷ limits_of ls

-- The rest of the creation, for what came of the post.
unfoldable pub tasked :
    World → Host → Hosts → Request → List Json → List String → Fields → Reply → Script
tasked w h hosts r limits participants task (refused text) =
    bad_request (concat ("Task error: " ∷ text ∷ []))
tasked w h hosts r limits participants task (failed e) = raise e
tasked w h hosts r limits participants task (rows n found) = try (uuid_of n found) λ uuid.
    task_others w h hosts r uuid (put "participants" (arr (array (strs participants))) task) 1
      (others_of participants) limits (enable w r uuid)

-- The creation of a task, with the tool in it.
unfoldable pub create :
    World → Host → Hosts → Request → Hints → Judgement → List String → Fields → Script
create w h hosts r hints j participants task =
    query
      (api_task_post (json_dump w (obj task)) (arr (array (strs participants)))
        (json_dump w (hints_json (some hints))) (limits_text w (limits_of j.limits)) (num (pos 0))
        (or_null (get "priority" task)) none false j.diags)
      (tasked w h hosts r (limits_of j.limits) participants task)
