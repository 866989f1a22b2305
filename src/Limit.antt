-- ===== src/Limit.antt =====
-- The classes of limits (python-pscheduler/pscheduler/pscheduler/limitprocessor/limit/*.py) as one
-- data type: `limit_creator` of limitset.py by the type's name, and the two methods that every
-- class has.
pub mod PassFail
pub mod TestType
pub mod RunDateRange
pub mod RunSchedule
pub mod Jq
pub mod Test
pub mod UrlFetch
use pscheduler.Common.{
  String, Bool, true, false, List, Option, none, some, str_eq, Result, ok, ◌>>=◌, if◌then◌else◌,
}
use pscheduler.Json.{Json}
use pscheduler.World.{World}
use pscheduler.Proposal.{Proposal, Evaluated}
use pscheduler.JqFilter.{Filter}
use pscheduler.Limit.Test.{TestLimit}

pub data Evaluator : Type 0 where
  jq : Filter → Evaluator
  pass_fail : Bool → Evaluator
  run_daterange : RunDateRange.RunDateRange → Evaluator
  run_schedule : RunSchedule.RunSchedule → Evaluator
  test : TestLimit → Evaluator
  test_type : List String → Evaluator
  url_fetch : UrlFetch.UrlFetch → Evaluator

-- `limit_creator[limit_type](data)`; `none` for a type that the table does not have.
unfoldable pub create : World → String → Json → Option (Result Evaluator)
create w type data' =
    if str_eq type "jq"
    then some (do l ← Jq.construct w data'; ok (jq l))
    else if str_eq type "pass-fail"
    then some (do l ← PassFail.construct w data'; ok (pass_fail l))
    else if str_eq type "run-daterange"
    then some (do l ← RunDateRange.construct w data'; ok (run_daterange l))
    else if str_eq type "run-schedule"
    then some (do l ← RunSchedule.construct w data'; ok (run_schedule l))
    else if str_eq type "test"
    then some (do l ← Test.construct w data'; ok (test l))
    else if str_eq type "test-type"
    then some (do l ← TestType.construct w data'; ok (test_type l))
    else if str_eq type "url-fetch"
    then some (do l ← UrlFetch.construct w data'; ok (url_fetch l))
    else none

unfoldable pub checks_schedule : Evaluator → Bool
checks_schedule (run_daterange l) = true
checks_schedule (run_schedule l) = true
checks_schedule l = false

unfoldable pub evaluate : World → Evaluator → Proposal → Result Evaluated
evaluate w (jq l) p = ok (Jq.evaluate w l p)
evaluate w (pass_fail l) p = ok (PassFail.evaluate l)
evaluate w (run_daterange l) p = RunDateRange.evaluate w l p
evaluate w (run_schedule l) p = RunSchedule.evaluate w l p
evaluate w (test l) p = Test.evaluate w l p
evaluate w (test_type l) p = TestType.evaluate l p
evaluate w (url_fetch l) p = UrlFetch.evaluate w l p
