-- ===== src/Limit/TestType.antt =====
-- limitprocessor/limit/testtype.py.
use pscheduler.Common.{
  Bool, false, String, Result, ok, err, key_error, ◌>>=◌, ◌>>◌, if◌then◌else◌, List, contains, [],
  ◌∷◌,
}
use pscheduler.Json.{Json, str, get_item, as_list, as_text}
use pscheduler.World.{World}
use pscheduler.Proposal.{Proposal, Evaluated, passes, fails, check_data}

unfoldable pub texts : List Json → Result (List String)
texts [] = ok []
texts (v ∷ vs) = do s ← as_text v; ss ← texts vs; ok (s ∷ ss)

unfoldable pub construct : World → Json → Result (List String)
unfolding texts
construct w data' = do
  check_data w "testtype_data_validator" data'
  v ← get_item data' "types"
  vs ← as_list v
  texts vs

-- `proposal['task']['test']['type']`.
unfoldable pub task_type : Proposal → Result Json
task_type p = do test ← get_item p.task "test"; get_item test "type"

-- `value in self.types`: the types are texts.
listed : List String → Json → Bool
listed types (str s) = contains types s
listed types v = false

-- The `try` block, with its handler of a KeyError.
judge : List String → Result Json → Result Evaluated
unfolding listed
judge types (ok v) = ok (if listed types v then passes else fails "Test type not in list")
judge types (err (key_error k)) = ok (fails "No type in task")
judge types (err e) = err e

unfoldable pub evaluate : List String → Proposal → Result Evaluated
unfolding judge
evaluate types p = judge types (task_type p)
