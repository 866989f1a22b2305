-- ===== src/ApiServer/Tasks/Validate.antt =====
-- What is validated of a task before the limits are asked: the spec of its test, its schedule, its
-- archives and the address it is to be led from.
use pscheduler.Common.{
  String, Bool, true, false, not, ◌==◌, concat, str_eq, Option, none, some, List, [], ◌∷◌, Result,
  ok, err, key_error, ◌>>=◌, if◌then◌else◌,
}
use pscheduler.Json.{
  Json, null, bool, num, pos, str, arr, obj, nil, end, get, get_item, as_text, as_list, as_dict,
}
use pscheduler.World.{World}
use pscheduler.PsJson.{json_load, json_load_schema, json_dump}
use pscheduler.JqFilter
use pscheduler.JqFilter.{shown}
use pscheduler.ApiServer.Script.{
  Script, invoke, try, catch, catch_value, bad_request, error, choose, given,
}
use pscheduler.ApiServer.Requests.{Host}

-- The truth of a value.
unfoldable pub truthy : Json → Bool
truthy null = false
truthy (bool b) = b
truthy (num (pos n)) = not (n == 0)
truthy (num n) = true
truthy (str s) = not (str_eq s "")
truthy (arr nil) = false
truthy (arr vs) = true
truthy (obj end) = false
truthy (obj m) = true

-- The messages of a validation: for a plug-in that fails, for a spec that is not valid, and for an
-- exception.
pub record Texts : Type 0 where
  pub broken : String
  pub invalid : String
  pub exception : String

abbrev pub spec_texts : Texts
spec_texts = record {
  broken = "Unable to validate test spec: ";
  invalid = "Invalid test specification: ";
  exception = "Unable to validate test spec: ";
}

abbrev pub rewritten_texts : Texts
rewritten_texts = record {
  broken = "Failed to validate rewritten test specification: ";
  invalid = "Rewritten test specification is invalid: ";
  exception = "Unable to validate rewritten test specification: ";
}

-- `v.get("error", "Unspecified error")`, as `%s` shows it.
unfoldable pub error_text : World → Json → Result String
error_text w v = do
  m ← as_dict v
  ok (elim (get "error" m) [ none ↦ "Unspecified error" | some e ↦ shown w e ])

-- `task['test']['type']` and the text of `task['test']['spec']`.
unfoldable pub test_of : World → Json → Result (String × String)
test_of w task = do
  test ← get_item task "test"
  t ← get_item test "type"
  type ← as_text t
  spec ← get_item test "spec"
  ok (type, json_dump w spec)

-- What the plug-in said of the spec: none if it is valid, or why not.
unfoldable pub spec_answer : World → String → Result (Option String)
spec_answer w stdout = do
  v ← json_load_schema w (some 1) stdout
  valid ← get_item v "valid"
  if truthy valid then ok none else (do text ← error_text w v; ok (some text))

-- The validation of a test's spec by its plug-in.
unfoldable pub validate_spec : World → Texts → Json → Script → Script
validate_spec w texts task rest =
    let fails = λ (text : String). error (concat (texts.exception ∷ text ∷ [])) in
    catch (test_of w task) fails λ test.
      invoke (record { kind = "test"; name = test.0; operation = "spec-is-valid"; stdin = test.1 })
        λ reply. catch reply fails λ done.
          choose (not (done.returncode == 0)) (error (concat (texts.broken ∷ done.stderr ∷ []))) (
            catch (spec_answer w done.stdout) fails
              λ answer. given answer rest λ text. bad_request (concat (texts.invalid ∷ text ∷ [])))

-- `task["schedule"]["repeat-cron"]`, if it is there.
unfoldable pub cron_of : Json → Result (Option String)
cron_of task = elim (do schedule ← get_item task "schedule"; get_item schedule "repeat-cron") [
  | ok v ↦ do s ← as_text v; ok (some s)
  | err e ↦ elim e [ key_error k ↦ ok none | other ↦ err other ]
]

unfoldable pub validate_schedule : Host → Json → Script → Script
validate_schedule h task rest = try (cron_of task) λ cron.
    given cron rest λ s. choose (h.crontab s) rest (error "Cron repeat specification is invalid.")

-- What the archiver's plug-in said of its data: none if they are valid, or why not.
unfoldable pub archive_answer : World → String → Result (Option String)
archive_answer w stdout = do
  v ← json_load w stdout
  valid ← get_item v "valid"
  if truthy valid then ok none else (do e ← get_item v "error"; ok (some (shown w e)))

-- The transform of an archive, if it has one.
unfoldable pub validate_transform : World → Json → Script → Script
validate_transform w archive rest = try (as_dict archive) λ m.
    given (get "transform" m) rest λ transform.
      catch_value
        (do
          script ← get_item transform "script"
          t ← as_dict transform
          JqFilter.construct w script (elim (get "args" t) [ none ↦ obj end | some args ↦ args ])
              false false)
        (λ text. error (concat ("Invalid transform: " ∷ text ∷ []))) λ filter. rest

-- One archive: the archiver's name and the text of its data.
unfoldable pub archiver_of : World → Json → Result (String × String)
archiver_of w archive = do
  a ← get_item archive "archiver"
  archiver ← as_text a
  data' ← get_item archive "data"
  ok (archiver, json_dump w data')

unfoldable pub validate_each : World → List Json → Script → Script
validate_each w [] rest = rest
validate_each w (archive ∷ archives) rest =
    let fails = λ (text : String). error (concat ("Unable to validate test spec: " ∷ text ∷ [])) in
    let more = validate_each w archives rest in
    catch (archiver_of w archive) fails λ archiver.
      invoke
        (record {
          kind = "archiver";
          name = archiver.0;
          operation = "data-is-valid";
          stdin = archiver.1;
        })
        λ reply. catch reply fails λ done.
          choose (not (done.returncode == 0))
            (error (concat ("Unable to validate archive spec: " ∷ done.stderr ∷ [])))
            (catch (archive_answer w done.stdout)
              (λ text. error (concat ("Internal probelm validating archiver data: " ∷ text ∷ [])))
              λ answer.
                given answer (validate_transform w archive more)
                  λ text. bad_request (concat ("Invalid archiver data: " ∷ text ∷ [])))

-- `task.get("archives", [])`.
unfoldable pub validate_archives : World → Json → Script → Script
validate_archives w task rest =
    try (do m ← as_dict task; elim (get "archives" m) [ none ↦ ok [] | some v ↦ as_list v ])
      λ archives. validate_each w archives rest

-- `task.get("lead-bind", None)`.
unfoldable pub lead_bind_of : Json → Result (Option String)
lead_bind_of task = do
  m ← as_dict task
  elim (get "lead-bind" m) [
    | none ↦ ok none
    | some v ↦ elim v [ null ↦ ok none | other ↦ do s ← as_text other; ok (some s) ]
  ]

unfoldable pub validate_lead_bind : World → Host → Json → Script → Script
validate_lead_bind w h task rest = try (lead_bind_of task) λ bind. given bind rest λ s.
    choose (h.has_interface s) rest
      (bad_request (concat ("Lead bind '" ∷ s ∷ "' is not  on this host" ∷ [])))
