-- ===== src/ApiServer/Tasks.antt =====
-- `tasks()` of tasks.py for a POST: a task is validated, put before the limits, offered to its
-- participants for their tools, and created.
pub mod Create
pub mod Permitted
pub mod Validate
pub mod Tools
pub mod Uuid
use pscheduler.Common.{
  ℕ, String, ◌≡◌, Bool, true, false, not, concat, map, length, Option, none, some, List, [], ◌∷◌,
  Result, ok, err, ◌>>=◌, if◌then◌else◌,
}
use pscheduler.Json.{Json, null, str, obj, field, end, get, get_item, as_text, as_list, as_dict}
use pscheduler.World.{World}
use pscheduler.PsJson.{json_load_schema, json_dump}
use pscheduler.Proposal.{Hints, hints_json}
use pscheduler.LimitProcessor.{Processor, process, Judgement}
use pscheduler.Api.{Hosts}
use pscheduler.ApiServer.Script.{
  Script, invoke, try, catch, catch_value, bad_request, forbidden, error, no_can_do, choose, given,
}
use pscheduler.ApiServer.Requests.{Request, Host, request_hints}
use pscheduler.ApiServer.Tasks.Validate.{
  validate_spec, spec_texts, rewritten_texts, validate_schedule, validate_archives,
  validate_lead_bind,
}
use pscheduler.ApiServer.Tasks.Tools.{find_participants, select_tool}
use pscheduler.ApiServer.Tasks.Create.{create}

-- What the whole server has: its world, its host, and what says how hosts become URLs.
module _ (w : World) (h : Host) (hosts : Hosts) (r : Request) where
  -- From the limits passed on, with the task that goes on.
  unfoldable pub place : Hints → Judgement → Json → Script
  place hints j task = find_participants w h r task λ participants.
      select_tool w h hosts task participants
        λ tooled. create w h hosts r hints j participants tooled

  -- After the judgement.
  unfoldable pub judged : Hints → Json → Judgement → Script
  judged hints task j =
      choose (not j.passed) (forbidden (concat ("Task forbidden by limits:\n" ∷ j.diags ∷ []))) (
        given j.task (place hints j task)
          λ new_task. validate_spec w rewritten_texts new_task (place hints j new_task))

  unfoldable pub limited : Option Processor → Json → Script
  limited none task = no_can_do (
      concat (
        "Limit processor is not initialized: "
        ∷ "Limit processor is not initialized.  See system logs." ∷ []))
  limited (some p) task = request_hints h r λ hints.
      try (process w p (record { task = task; hints = some hints }) true false)
        λ j. judged hints task j

  -- `tasks()`, where `limitprocessor()` has given the processor.
  unfoldable pub tasks_post : Option Processor → Script
  tasks_post processor =
      catch_value (json_load_schema w (some 3) r.data')
        (λ text. bad_request (concat ("Invalid task specification: " ∷ text ∷ [])))
        λ task.
          given (w.json_validate "TaskSpecification" task)
            (validate_spec w spec_texts task (
              validate_schedule h task
                (validate_archives w task (validate_lead_bind w h task (limited processor task)))))
            λ text. bad_request (concat ("Invalid task specification: " ∷ text ∷ []))
