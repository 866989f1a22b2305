-- ===== src/LimitSet/Check.antt =====
-- What a check against one limit answers: inversion, and the bypass of limits on the schedule.
use pscheduler.Common.{
  String, ◌≡◌, Bool, true, false, none, some, [], ◌∷◌, ok, err, lookup, value_error, concat,
}
use pscheduler.World.{World}
use pscheduler.Proposal.{Proposal, passes}
use pscheduler.Limit
use pscheduler.LimitSet.{LimitSet, LimitEntry, check}

module _ (w : World) (limits : LimitSet) (p : Proposal) (name : String) (l : LimitEntry) where
  -- Without a schedule to check, a limit on the schedule passes, inverted or not, and is not
  -- evaluated.
  pub check_without_schedule :
      lookup name limits ≡ some l
      → Limit.checks_schedule l.evaluator ≡ true
      → check w limits p name false ≡ ok passes
  unfolding check
  check_without_schedule found timed = rw (found, timed)

-- Checking against a name that is not in the set raises the exception that names it.
pub check_undefined :
    (w : World) (limits : LimitSet) (p : Proposal) (name : String) (schedule : Bool)
    → lookup name limits ≡ none
    → check w limits p name schedule
      ≡ err (value_error (concat ("Undefined limit '" ∷ name ∷ "'" ∷ [])))
unfolding check
check_undefined w limits p name schedule absent = rw absent
