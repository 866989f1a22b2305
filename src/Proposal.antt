-- ===== src/Proposal.antt =====
-- What the limit processor judges, and what a limit answers
-- (python-pscheduler/pscheduler/pscheduler/limitprocessor/limitprocessor.py and limit/*.py).
use pscheduler.Common.{
  String, Bool, true, false, Option, none, some, List, [], ◌∷◌, Result, ok, err, value_error,
  concat,
}
use pscheduler.Json.{Json, str, obj, null, Fields, end, field}
use pscheduler.World.{World}

-- The hints are a dict of texts, or None.
abbrev pub Hints : Type 0
Hints = List (String × String)

pub record Proposal : Type 0 where
  pub task : Json
  pub hints : Option Hints

fields_of : Hints → Fields
fields_of [] = end
fields_of ((k, v) ∷ m) = field k (str v) (fields_of m)

-- The hints as the JSON that is handed to a jq script.
unfoldable pub hints_json : Option Hints → Json
unfolding fields_of
hints_json none = null
hints_json (some m) = obj (fields_of m)

-- The dict that `evaluate` of a limit returns; a key that is not there is `none`.
pub record Evaluated : Type 0 where
  pub passed : Bool
  pub limit : Option Json
  pub reasons : Option (List String)

abbrev pub passes : Evaluated
passes = record { passed = true; limit = none; reasons = none }

abbrev pub fails : String → Evaluated
fails reason = record { passed = false; limit = none; reasons = some (reason ∷ []) }

-- `raise ValueError("Invalid data: %s" % message)` in the constructors.
unfoldable pub check_data : World → String → Json → Result (Unit {0})
check_data w schema value = elim (w.json_validate schema value) [
  | none ↦ ok tt
  | some message ↦ err (value_error (concat ("Invalid data: " ∷ message ∷ [])))
]
