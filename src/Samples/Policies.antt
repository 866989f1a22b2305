-- ===== src/Samples/Policies.antt =====
-- Limits of the pass-fail type, groups and applications of them, identifiers and classifiers.

use pscheduler.Common.{
  String, ◌≡◌, refl, Bool, true, false, not, ◌&&◌, none, some, List, [], ◌∷◌, ok, err, Result,
  contains, some_of, indent, decimal,
}
use pscheduler.Json.{
  Json, obj, str, arr, nil, cons, end, field, get_item, as_text, as_list, as_dict,
}
use pscheduler.Proposal.{Proposal, fails}
use pscheduler.Limit
use pscheduler.Limit.{pass_fail}
use pscheduler.Limit.PassFail
use pscheduler.Identifier
use pscheduler.Identifier.{always}
use pscheduler.IdentifierSet.{IdentifierSet, identities}
use pscheduler.ClassifierSet.{Requirement, Classifier, ClassifierSet, classified}
use pscheduler.ClassifierSet
use pscheduler.ClassifierSet.Requirements.{required, classified-required}
use pscheduler.LimitSet.{LimitSet, LimitEntry, check, finish}
use pscheduler.ApplicationSet.{
  Group, Application, GroupResult, ApplicationResult, Verdict, check_group, check_application,
  check_applications, condition, tally, count_limit, check_groups, check_all, applies,
}
use pscheduler.ApplicationSet.Groups.{limit_passes, check_group-required}
use pscheduler.ApplicationSet.Verdicts.{app_passes, app_stops, check_applications-verdict}
use pscheduler.ApplicationSet.Groups.{check_application-every}
use pscheduler.Common.{every}
use pscheduler.ApplicationSet.Groups.{group_passes}
use pscheduler.Samples.Worlds.{world}

abbrev pub limit_named : String → Bool → LimitEntry
limit_named name pass = record {
  name = name;
  type = "pass-fail";
  config = obj end;
  invert = none;
  evaluator = pass_fail pass;
}

abbrev pub limits : LimitSet
limits = ("always", limit_named "always" true) ∷ ("never", limit_named "never" false) ∷ []

abbrev pub proposal : Proposal
proposal = record { task = obj end; hints = none }

abbrev pub mixed : Group
mixed = record { require = Requirement.any; limits = "never" ∷ "always" ∷ [] }

abbrev strict : Group
strict = record { require = Requirement.all; limits = "never" ∷ "always" ∷ [] }

abbrev pub application : String → List Group → Bool → Application
application text groups stop = record {
  classifier = some text;
  description = none;
  groups = groups;
  stop_on_failure = stop;
  invert = false;
}

abbrev mixed_result : GroupResult
mixed_result = record {
  passed = true;
  limits_passed = [];
  diags =
      "Limit 'never' failed: Forced failure" ∷ "Limit 'always' passed"
      ∷ "Want any, 1/2 passed, 1/2 failed: PASS" ∷ [];
}

mixed_checked : check_group world limits proposal true mixed ≡ ok mixed_result
unfolding check_group check Limit.evaluate PassFail.evaluate finish tally count_limit condition
    decimal
mixed_checked = refl

mixed_example :
    true
    ≡ required Requirement.any (limit_passes world limits proposal true) ("never" ∷ "always" ∷ [])
mixed_example = check_group-required world limits proposal true mixed mixed_result mixed_checked

abbrev strict_result : ApplicationResult
strict_result = record {
  passed = false;
  stop_on_failure = true;
  limits_passed = [];
  diags =
      "Group 1: Limit 'never' failed: Forced failure" ∷ "Group 1: Limit 'always' passed"
      ∷ "Group 1: Want all, 1/2 passed, 1/2 failed: FAIL" ∷ "Group 1: Failed; stopping here."
      ∷ "Application FAILS" ∷ [];
}

strict_checked :
    check_application world limits proposal true (application "c" (strict ∷ mixed ∷ []) true)
    ≡ ok strict_result
unfolding check_application check_groups check_group check Limit.evaluate PassFail.evaluate finish
    tally count_limit condition decimal
strict_checked = refl

strict_example : false ≡ every (group_passes world limits proposal true) (strict ∷ mixed ∷ [])
strict_example =
    check_application-every world limits proposal true (application "c" (strict ∷ mixed ∷ []) true)
      strict_result strict_checked

abbrev pub lenient : Application
lenient = application "c" (mixed ∷ []) false

abbrev elsewhere : Application
elsewhere = application "d" (strict ∷ []) true

abbrev outcome : Result Verdict → Verdict
outcome (ok v) = v
outcome (err e) = record { passed = false; limits_passed = []; diags = "" }

abbrev verdict : List Application → Verdict
verdict apps = outcome (check_applications world limits proposal ("c" ∷ []) true apps)

forward :
    check_applications world limits proposal ("c" ∷ []) true (lenient ∷ elsewhere ∷ [])
    ≡ ok (verdict (lenient ∷ elsewhere ∷ []))
unfolding check_applications check_all applies check_application check_groups check_group check
    Limit.evaluate PassFail.evaluate finish tally count_limit condition decimal indent
forward = refl

backward :
    check_applications world limits proposal ("c" ∷ []) true (elsewhere ∷ lenient ∷ [])
    ≡ ok (verdict (elsewhere ∷ lenient ∷ []))
unfolding check_applications check_all applies check_application check_groups check_group check
    Limit.evaluate PassFail.evaluate finish tally count_limit condition decimal indent
backward = refl

check_applications-verdict_example : (verdict (lenient ∷ elsewhere ∷ [])).passed ≡ (
    some_of (app_passes world limits proposal true ("c" ∷ [])) (lenient ∷ elsewhere ∷ [])
    && not (some_of (app_stops world limits proposal true ("c" ∷ [])) (lenient ∷ elsewhere ∷ [])))
check_applications-verdict_example =
    check_applications-verdict world limits proposal true ("c" ∷ []) (lenient ∷ elsewhere ∷ [])
      (verdict (lenient ∷ elsewhere ∷ [])) forward

never_evaluated : Limit.evaluate world (pass_fail false) proposal ≡ ok (fails "Forced failure")
unfolding Limit.evaluate PassFail.evaluate
never_evaluated = refl

abbrev pub people : IdentifierSet
people =
    record { name = "everybody"; invert = none; evaluator = always }
    ∷ record { name = "nobody"; invert = some true; evaluator = always }
    ∷ []

abbrev outsiders : IdentifierSet
outsiders = record { name = "nobody"; invert = some true; evaluator = always } ∷ []

everybody_found : identities world people none ≡ ok ("everybody" ∷ [])
unfolding identities Identifier.evaluate
everybody_found = refl

nobody_found : identities world outsiders none ≡ ok []
unfolding identities Identifier.evaluate
nobody_found = refl

abbrev two_of : Classifier
two_of = record { identifiers = "everybody" ∷ "nobody" ∷ []; require = Requirement.one }

classified-required_example :
    classified ("everybody" ∷ []) two_of
    ≡ required Requirement.one (contains ("everybody" ∷ [])) ("everybody" ∷ "nobody" ∷ [])
classified-required_example = classified-required ("everybody" ∷ []) two_of

abbrev described : Json
described = obj (
    field "name" (str "all")
      (field "identifiers" (arr (cons (str "everybody") nil)) (field "require" (str "all") end)))

abbrev pub built : ClassifierSet
built = ("all", record { identifiers = "everybody" ∷ []; require = Requirement.all }) ∷ []

building : ClassifierSet.construct people (described ∷ []) ≡ ok built
unfolding ClassifierSet.construct ClassifierSet.add get_item as_text as_list as_dict
building = refl
