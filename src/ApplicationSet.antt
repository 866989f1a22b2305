-- ===== src/ApplicationSet.antt =====
-- `ApplicationSet` of python-pscheduler/pscheduler/pscheduler/limitprocessor/applicationset.py. The
-- applications are the dicts of the limit file after its validation, as records.
pub mod Groups
pub mod Verdicts
pub mod Silence
pub mod Known
use pscheduler.Common.{
  ℕ, zero, suc, ◌+◌, ◌-◌, String, Bool, true, false, not, ◌&&◌, concat, join, decimal, indent,
  contains, ◌==◌, ltb, length, Option, none, some, List, [], ◌∷◌, ◌++◌, map, Result, ok, err,
  key_error, value_error, ◌>>=◌, ◌>>◌, guard, or_raise, has_key, is_empty, filter_by, if◌then◌else◌,
}
use pscheduler.Json.{Json}
use pscheduler.World.{World}
use pscheduler.Proposal.{Proposal, Evaluated}
use pscheduler.ClassifierSet.{ClassifierSet, Requirement, nothing, one, any, all}
use pscheduler.LimitSet.{LimitSet, check, contains_limit}

pub record Group : Type 0 where
  pub require : Requirement
  pub limits : List String

pub record Application : Type 0 where
  pub classifier : Option String
  pub description : Option String
  pub groups : List Group
  pub stop_on_failure : Bool
  pub invert : Bool

-- The keys of the dicts `unknown_classifiers` and `unknown_limits`: each name once, in the order in
-- which the loops meet them.
pub note_unknown : Bool → String → List String → List String
note_unknown known name unknown =
    if known then unknown else if contains unknown name then unknown else unknown ++ name ∷ []

pub note_classifier : ClassifierSet → Option String → List String → List String
unfolding note_unknown
note_classifier cs none unknown = unknown
note_classifier cs (some name) unknown = note_unknown (has_key name cs) name unknown

pub unknown_classifiers : ClassifierSet → List String → List Application → List String
unfolding note_classifier
unknown_classifiers cs unknown [] = unknown
unknown_classifiers cs unknown (a ∷ as') =
    unknown_classifiers cs (note_classifier cs a.classifier unknown) as'

pub unknown_in : LimitSet → List String → List String → List String
unfolding note_unknown
unknown_in limits unknown [] = unknown
unknown_in limits unknown (name ∷ names) =
    unknown_in limits (note_unknown (contains_limit limits name) name unknown) names

pub unknown_in_groups : LimitSet → List String → List Group → List String
unfolding unknown_in
unknown_in_groups limits unknown [] = unknown
unknown_in_groups limits unknown (g ∷ gs) =
    unknown_in_groups limits (unknown_in limits unknown g.limits) gs

pub unknown_limits : LimitSet → List String → List Application → List String
unfolding unknown_in_groups
unknown_limits limits unknown [] = unknown
unknown_limits limits unknown (a ∷ as') =
    unknown_limits limits (unknown_in_groups limits unknown a.groups) as'

-- One entry of `errors`.
pub complaint : String → List String → List String
complaint text [] = []
complaint text (n ∷ ns) = concat (text ∷ join ", " (n ∷ ns) ∷ []) ∷ []

-- `ApplicationSet(fodder, classifiers, limits)`: the applications, once every name is known.
unfoldable pub construct : ClassifierSet → LimitSet → List Application → Result (List Application)
unfolding unknown_classifiers unknown_limits complaint
construct cs limits fodder =
    let errors =
      complaint "Unknown classifiers: " (unknown_classifiers cs [] fodder)
      ++ complaint "Unknown limits: " (unknown_limits limits [] fodder) in
    if is_empty errors then ok fodder else err (value_error (join ".  " errors))

-- `group_condition_tests`.
unfoldable pub condition : Requirement → (passes fails : ℕ) → Bool
condition nothing passes fails = passes == 0
condition one passes fails = passes == 1
condition any passes fails = ltb 0 passes
condition all passes fails = fails == 0

abbrev pub requirement_name : Requirement → String
requirement_name nothing = "none"
requirement_name one = "one"
requirement_name any = "any"
requirement_name all = "all"

-- The variables of the loop of `__check_group`.
pub record Tally : Type 0 where
  pub passes : ℕ
  pub fails : ℕ
  pub limits_passed : List Json
  pub diags : List String

abbrev pub fresh : Tally
fresh = record { passes = 0; fails = 0; limits_passed = []; diags = [] }

-- One round: a limit that fails must give its reasons.
unfoldable pub count_limit : Tally → String → Evaluated → Result Tally
count_limit t limit e =
    if e.passed
    then ok (record {
      passes = t.passes + 1;
      fails = t.fails;
      limits_passed = elim e.limit [ none ↦ t.limits_passed | some l ↦ t.limits_passed ++ l ∷ [] ];
      diags = t.diags ++ concat ("Limit '" ∷ limit ∷ "' passed" ∷ []) ∷ [];
    })
    else (do
      reasons ← or_raise e.reasons (key_error "reasons")
      ok (record {
        passes = t.passes;
        fails = t.fails + 1;
        limits_passed = t.limits_passed;
        diags = t.diags ++ concat ("Limit '" ∷ limit ∷ "' failed: " ∷ join "; " reasons ∷ []) ∷ [];
      }))

-- What `__check_group` returns.
pub record GroupResult : Type 0 where
  pub passed : Bool
  pub limits_passed : List Json
  pub diags : List String

-- What `__check_application` returns.
pub record ApplicationResult : Type 0 where
  pub passed : Bool
  pub stop_on_failure : Bool
  pub limits_passed : List Json
  pub diags : List String

-- What `check` returns.
pub record Verdict : Type 0 where
  pub passed : Bool
  pub limits_passed : List (List Json)
  pub diags : String

summary : Requirement → (total passes fails : ℕ) → Bool → String
summary r total passes fails passed = concat (
    "Want "
    ∷ requirement_name r
    ∷ ", "
    ∷ decimal passes
    ∷ "/"
    ∷ decimal total
    ∷ " passed, "
    ∷ decimal fails
    ∷ "/"
    ∷ decimal total
    ∷ " failed: "
    ∷ (if passed then "PASS" else "FAIL")
    ∷ [])

-- An application with no classifier always applies.
unfoldable pub applies : List String → Application → Bool
applies classifiers a = elim a.classifier [ none ↦ true | some c ↦ contains classifiers c ]

abbrev described : Application → String
described a = elim a.description [ none ↦ "(No description)" | some d ↦ d ]

module _ (w : World) (limits : LimitSet) (p : Proposal) (check_schedule : Bool) where
  unfoldable pub tally : Tally → List String → Result Tally
  tally t [] = ok t
  tally t (limit ∷ names) = do
    evaluated ← check w limits p limit check_schedule
    next ← count_limit t limit evaluated
    tally next names

  unfoldable pub check_group : Group → Result GroupResult
  unfolding summary
  check_group g = do
    t ← tally fresh g.limits
    let passed = condition g.require t.passes t.fails
    ok (record {
      passed = passed;
      limits_passed = t.limits_passed;
      diags = t.diags ++ summary g.require (length g.limits) t.passes t.fails passed ∷ [];
    })

  -- The loop over the groups, with the number of groups that have not passed, which stops at the
  -- first group that fails.
  unfoldable pub check_groups :
      (group_no groups_failed : ℕ)
      → List Json
      → List String
      → List Group
      → Result (ℕ × List Json × List String)
  check_groups group_no groups_failed passed diags [] = ok (groups_failed, passed, diags)
  check_groups group_no groups_failed passed diags (g ∷ gs) = do
    let number = group_no + 1
    r ← check_group g
    let lines = diags ++ map (λ diag. concat ("Group " ∷ decimal number ∷ ": " ∷ diag ∷ [])) r.diags
    if r.passed
        then check_groups number (groups_failed - 1) (passed ++ r.limits_passed) lines gs
        else ok (
          groups_failed,
          passed,
          lines ++ concat ("Group " ∷ decimal number ∷ ": Failed; stopping here." ∷ []) ∷ [],
        )

  unfoldable pub check_application : Application → Result ApplicationResult
  check_application a = do
    (groups_failed, passed, diags) ← check_groups 0 (length a.groups) [] [] a.groups
    let met = groups_failed == 0
    let pass = if a.invert then not met else met
    ok (record {
      passed = pass;
      stop_on_failure = a.stop_on_failure;
      limits_passed = passed;
      diags =
          diags
          ++ concat (
              "Application "
              ∷ (if pass then "PASSES" else "FAILS")
              ∷ (if a.invert then " (Inverted)" else "")
              ∷ [])
            ∷ [];
    })

  -- The loop of `check` over the applications, with the number that passed.
  unfoldable pub check_all :
      List String → ℕ → List String → List (List Json) → List Application → Result Verdict
  unfolding applies
  check_all classifiers pass_count diags passed [] = ok (
      if ltb 0 pass_count
      then record { passed = true; limits_passed = passed; diags = join "\n" diags }
      else record { passed = false; limits_passed = []; diags = join "\n" diags })
  check_all classifiers pass_count diags passed (a ∷ as') =
      let skip = check_all classifiers pass_count diags passed as' in
      if not (applies classifiers a) then skip else (do
        r ← check_application a
        let lines = diags ++ concat ("Application: " ∷ described a ∷ []) ∷ map indent r.diags
        if not r.passed && r.stop_on_failure
            then ok (record {
              passed = false;
              limits_passed = [];
              diags = join "\n" (lines ++ "    Failed - Stop Forced" ∷ []);
            })
            else check_all classifiers (if r.passed then pass_count + 1 else pass_count) lines
                (if r.passed then passed ++ r.limits_passed ∷ [] else passed) as')

-- `ApplicationSet.check`.
unfoldable pub check_applications :
    World → LimitSet → Proposal → List String → Bool → List Application → Result Verdict
check_applications w limits p classifiers check_schedule applications =
    check_all w limits p check_schedule classifiers 0 [] [] applications
