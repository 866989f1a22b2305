-- ===== src/Limit/PassFail.antt =====
-- limitprocessor/limit/passfail.py.
use pscheduler.Common.{Bool, Result, ◌>>=◌, ◌>>◌, if◌then◌else◌}
use pscheduler.Json.{Json, get_item, as_bool}
use pscheduler.World.{World}
use pscheduler.Proposal.{Evaluated, passes, fails, check_data}

unfoldable pub construct : World → Json → Result Bool
construct w data' = do
  check_data w "passfail_data_validator" data'
  v ← get_item data' "pass"
  as_bool v

unfoldable pub evaluate : Bool → Evaluated
evaluate pass = if pass then passes else fails "Forced failure"
