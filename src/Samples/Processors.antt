-- ===== src/Samples/Processors.antt =====
-- The whole processor on a small limit file, and the result of a rewriter.
use pscheduler.Common.{
  String, ◌≡◌, ◌≢◌, refl, true, false, none, List, [], ◌∷◌, ok, err, Result, decimal, indent,
}
use pscheduler.Json.{bool, obj, str, arr, nil, Fields, end, field, as_dict}
use pscheduler.Proposal.{Proposal}
use pscheduler.IdentifierSet.{identities}
use pscheduler.Identifier
use pscheduler.ClassifierSet.{classifications, classified, check_count}
use pscheduler.LimitSet.{check, finish}
use pscheduler.Limit
use pscheduler.Limit.PassFail
use pscheduler.ApplicationSet.{
  check_group, check_application, check_applications, condition, tally, count_limit, check_groups,
  check_all, applies,
}
use pscheduler.LimitProcessor.{
  Stages, Judgement, active, process, classify, apply, after_rewrite, rewriting, priorities, judge,
}
use pscheduler.LimitProcessor.Denial.{Approved, process-Approved}
use pscheduler.Rewriter.{Rewritten, private_key}
use pscheduler.LimitProcessor.Rewriting.{passes_without_rewriting}
use pscheduler.Samples.Worlds.{world}
use pscheduler.Samples.Policies.{limits, proposal, people, mixed, application, built}

abbrev stages : Stages
stages = record {
  identifiers = people;
  classifiers = built;
  rewriter = none;
  limits = limits;
  applications = application "all" (mixed ∷ []) false ∷ [];
  prioritizer = none;
}

abbrev outcome : Result Judgement → Judgement
outcome (ok j) = j
outcome (err e) = record { passed = false; limits = []; diags = ""; task = none; priority = none }

abbrev judgement : Judgement
judgement = outcome (process world (active stages) proposal true true)

let_pass :
    (process world (active stages) proposal true true ≡ ok judgement) × (judgement.passed ≡ true)
unfolding process identities Identifier.evaluate classifications classified check_count classify
    apply as_dict after_rewrite rewriting priorities judge check_applications check_all applies
    check_application check_groups check_group check Limit.evaluate Limit.checks_schedule
    PassFail.evaluate finish tally count_limit condition decimal indent
let_pass = (refl, refl)

process-Approved_example :
    (found : List String) × (identities world people none ≡ ok found)
    × (found ≢ [])
    × (classifications built found ≢ [])
    × Approved world stages proposal (classifications built found)
process-Approved_example =
    process-Approved world stages proposal true true judgement let_pass.0 let_pass.1

-- A proposal to measure a round trip time, and a rewriter's result for it.
abbrev rtt : Fields
rtt = field "type" (str "rtt") (field "spec" (obj end) end)

abbrev rewritten : Fields
rewritten =
    field "test" (obj rtt)
      (field private_key (obj (field "changed" (bool true) (field "diags" (arr nil) end))) end)

abbrev new_task : Rewritten
new_task = record { changed = true; task = obj (field "test" (obj rtt) end); diags = [] }

abbrev measurement : Proposal
measurement = record { task = obj (field "test" (obj rtt) end); hints = none }

passes_without_rewriting_example :
    (j' : Judgement) × (process world (active stages) proposal false false ≡ ok j')
    × (j'.passed ≡ true)
passes_without_rewriting_example =
    passes_without_rewriting world stages proposal true judgement let_pass.0 let_pass.1
