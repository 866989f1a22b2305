-- ===== src/Limit/Jq.antt =====
-- limitprocessor/limit/jq.py, and what the classes that run jq scripts share: the text of a script
-- and its arguments.
use pscheduler.Common.{
  String, concat, join, none, some, [], ◌∷◌, Result, ok, err, false, ◌>>=◌, ◌>>◌, message,
  if◌then◌else◌,
}
use pscheduler.Json.{Json, bool, str, arr, obj, end, get, get_item, as_text, as_dict, items}
use pscheduler.World.{World}
use pscheduler.Proposal.{Proposal, Evaluated, passes, fails, check_data}
use pscheduler.JqFilter
use pscheduler.JqFilter.{Filter, run}
use pscheduler.Limit.TestType.{texts}

-- A script is a text, or a list of lines.
unfoldable pub script_text : Json → Result String
unfolding texts
script_text (arr vs) = do lines ← texts (items vs); ok (join "\n" lines)
script_text v = as_text v

-- `m.get(key, {})`.
unfoldable pub get_or_empty : String → Json → Result Json
get_or_empty key v = do m ← as_dict v; ok (elim (get key m) [ none ↦ obj end | some w ↦ w ])

unfoldable pub construct : World → Json → Result Filter
construct w data' = do
  check_data w "jq_data_validator" data'
  script ← get_item data' "script"
  args ← get_or_empty "args" data'
  JqFilter.construct w script args false false

-- What the value that the script returned says.
judge : Json → Evaluated
judge (bool b) = if b then passes else fails "Unspecified reason"
judge (str reason) = fails reason
judge v = fails "Script returned unusable data"

-- With the handler of whatever exception the filter raised.
handle : Result Json → Evaluated
unfolding judge
handle (ok v) = judge v
handle (err e) = fails (concat ("Failed to process task: " ∷ message e ∷ []))

unfoldable pub evaluate : World → Filter → Proposal → Evaluated
unfolding handle
evaluate w f p = handle (run w f p.task)
