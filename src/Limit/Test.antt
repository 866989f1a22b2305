-- ===== src/Limit/Test.antt =====
-- limitprocessor/limit/test.py: the decision of a test's own plug-in.
use pscheduler.Common.{
  String, Bool, true, false, concat, str_eq, none, some, [], ◌∷◌, Result, ok, err, value_error,
  runtime_error, ◌>>=◌, ◌>>◌, guard, ◌==◌, if◌then◌else◌,
}
use pscheduler.Json.{Json, str, obj, end, field, get_item, as_text, as_bool, as_list}
use pscheduler.PsJson.{json_load_schema}
use pscheduler.World.{World, PluginReply}
use pscheduler.Proposal.{Proposal, Evaluated, fails, check_data}
use pscheduler.Limit.TestType.{texts, task_type}

pub record TestLimit : Type 0 where
  pub test : String
  pub limit : Json

-- `if returncode != 0: raise RuntimeError(...)`, and the JSON of the standard output.
unfoldable pub reply_json : World → PluginReply → Result Json
reply_json w r = do
  guard (r.returncode == 0) (runtime_error (concat ("Failed to validate limit: " ∷ r.stderr ∷ [])))
  json_load_schema w (some 1) r.stdout

unfoldable pub construct : World → Json → Result TestLimit
unfolding reply_json
construct w data' = do
  check_data w "test_data_validator" data'
  t ← get_item data' "test"
  test ← as_text t
  limit ← get_item data' "limit"
  result ← reply_json w (w.plugin_invoke test "limit-is-valid" limit)
  v ← get_item result "valid"
  valid ← as_bool v
  if valid then ok (record { test = test; limit = limit }) else do
    m ← get_item result "message"
    text ← as_text m
    err (value_error (concat ("Invalid limit: " ∷ text ∷ [])))

-- `value == text`.
is_text : String → Json → Bool
is_text s (str t) = str_eq s t
is_text s v = false

-- The dict that is written to the plug-in.
abbrev pass_input : Json → Json → Json
pass_input spec limit = obj (field "spec" spec (field "limit" limit end))

-- What the plug-in's answer says.
unfoldable pub outcome : Json → Json → Result Evaluated
unfolding texts
outcome limit check = do
  v ← get_item check "passes"
  passed ← as_bool v
  if passed then ok (record { passed = true; limit = some limit; reasons = none }) else do
    e ← get_item check "errors"
    es ← as_list e
    errors ← texts es
    ok (record { passed = false; limit = some limit; reasons = some errors })

-- The call of the plug-in.
ask : World → TestLimit → Proposal → Result Evaluated
unfolding reply_json outcome
ask w l p = do
  test ← get_item p.task "test"
  spec ← get_item test "spec"
  check ← reply_json w (w.plugin_invoke l.test "limit-passes" (pass_input spec l.limit))
  outcome l.limit check

unfoldable pub evaluate : World → TestLimit → Proposal → Result Evaluated
unfolding ask is_text
evaluate w l p = do
  type ← task_type p
  if is_text l.test type
      then ask w l p
      else ok (fails (concat ("Test is not '" ∷ l.test ∷ "'" ∷ [])))
