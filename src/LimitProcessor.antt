-- ===== src/LimitProcessor.antt =====
-- `LimitProcessor` of python-pscheduler/pscheduler/pscheduler/limitprocessor/limitprocessor.py: the
-- stages of a limit file, and the judgement of a proposed task.
mod Hints
mod Priorities
pub mod Denial
pub mod Rewriting
pub mod Load
use Hints.{hint_lines}
use Priorities.{requested_text, priority_text}
use pscheduler.Common.{
  ℕ, String, Bool, true, false, not, ◌&&◌, ◌||◌, concat, join, map, is_empty, some_of, Option, none,
  some, List, [], ◌∷◌, ◌++◌, Result, ok, err, message, ◌>>=◌, ◌>>◌, if◌then◌else◌,
}
use pscheduler.Json.{ℤ, pos, Json, null, num, Fields, get, as_dict}
use pscheduler.World.{World}
use pscheduler.Proposal.{Proposal}
use pscheduler.Proposal
use pscheduler.IdentifierSet.{IdentifierSet, identities}
use pscheduler.ClassifierSet.{ClassifierSet, classifications}
use pscheduler.LimitSet.{LimitSet}
use pscheduler.ApplicationSet.{Application, Verdict, check_applications}
use pscheduler.JqFilter.{Filter}
use pscheduler.Rewriter.{Rewritten, rewrite}
use pscheduler.Prioritizer.{Priority, prioritize}

pub record Stages : Type 0 where
  pub identifiers : IdentifierSet
  pub classifiers : ClassifierSet
  pub rewriter : Option Filter
  pub limits : LimitSet
  pub applications : List Application
  pub prioritizer : Option Filter

-- A processor without a source is inert.
pub data Processor : Type 0 where
  inert : Processor
  active : Stages → Processor

-- What `process` returns.
pub record Judgement : Type 0 where
  pub passed : Bool
  pub limits : List (List Json)
  pub diags : String
  pub task : Option Json
  pub priority : Option ℤ

abbrev pub denied : String → Judgement
denied diags = record { passed = false; limits = []; diags = diags; task = none; priority = none }

-- What the rewriting stage leaves to the stages after it: the rewriter's task, if one ran, the task
-- to go on with, and the diagnostics.
pub record AfterRewrite : Type 0 where
  pub new_task : Option Json
  pub task : Json
  pub diags : List String

-- The diagnostics of a rewriter that changed the task.
change_lines : List String → List String
change_lines [] = "  (Not enumerated)" ∷ []
change_lines (d ∷ ds) = map (λ s. concat ("  " ∷ s ∷ [])) (d ∷ ds)

-- `'run_schedule' in task`.
unfoldable pub has_run_schedule : Fields → Bool
has_run_schedule m = elim (get "run_schedule" m) [ none ↦ false | some v ↦ true ]

module _ (w : World) (s : Stages) where
  unfoldable pub rewriting : Bool → Proposal → List String → List String → Result AfterRewrite
  unfolding change_lines
  rewriting wanted p classifiers diags =
      let plain = ok (record { new_task = none; task = p.task; diags = diags }) in
      elim s.rewriter [
        | none ↦ plain
        | some f ↦
            if wanted
            then (do
              r ← rewrite w f p classifiers
              ok (
                  if r.changed
                  then record {
                    new_task = some r.task;
                    task = r.task;
                    diags = diags ++ "Rewriter made changes:" ∷ change_lines r.diags;
                  }
                  else record { new_task = some r.task; task = p.task; diags = diags }))
            else plain
      ]

  -- The end of `process` on a verdict and a priority.
  unfoldable pub judge : Verdict → Option Json → ℤ → List String → Judgement
  judge v new_task priority diags =
      let unlimited = is_empty v.limits_passed || some_of is_empty v.limits_passed in
      record {
        passed = v.passed;
        limits = if unlimited || not v.passed then [] else v.limits_passed;
        diags = join "\n" diags;
        task = new_task;
        priority = some priority;
      }

  -- The priority that the prioritizer gave.
  prioritized : Verdict → AfterRewrite → List String → Priority → Result Judgement
  unfolding requested_text priority_text
  prioritized v a diags r = elim r.value [
    | null ↦ ok (denied "Prioritizer produced no result")
    | _ ↦ do
      requested ← requested_text a.task
      (priority, line) ← priority_text requested r.value (is_empty r.diags)
      ok (judge v a.new_task priority (diags ++ line ∷ map (λ d. concat ("  " ∷ d ∷ [])) r.diags))
  ]

  -- The stage of the priorities, with the handler of the prioritizer's exceptions.
  unfoldable pub priorities :
      Bool → List String → Verdict → AfterRewrite → List String → Result Judgement
  unfolding prioritized
  priorities wanted classifiers v a diags =
      let default =
        ok (judge v a.new_task (pos 0) (diags ++ "Priority set to default of 0" ∷ [])) in
      elim s.prioritizer [
        | none ↦ default
        | some f ↦
            if wanted && v.passed
            then elim (prioritize w f a.task classifiers) [
              | err e ↦ ok (denied (concat ("Error determining priority: " ∷ message e ∷ [])))
              | ok r ↦ prioritized v a diags r
            ]
            else default
      ]

  -- The applications judge the proposal as it was made, and the priority is that of the task as it
  -- was rewritten.
  unfoldable pub after_rewrite :
      Bool → Proposal → List String → Bool → Result AfterRewrite → Result Judgement
  after_rewrite wanted p classifiers check_schedule (err e) =
      ok (denied (concat ("Error while rewriting: " ∷ message e ∷ [])))
  after_rewrite wanted p classifiers check_schedule (ok a) = do
    v ← check_applications w s.limits p classifiers check_schedule s.applications
    priorities wanted classifiers v a (
        a.diags
        ++ v.diags
          ∷ concat ("Proposal " ∷ (if v.passed then "meets" else "does not meet") ∷ " limits" ∷ [])
          ∷ [])

  -- From the classifications on.
  unfoldable pub apply : Bool → Bool → Proposal → List String → List String → Result Judgement
  unfolding has_run_schedule
  apply rewrite' prioritize' p diags [] =
      ok (denied (join "\n" (diags ++ "Made no classifications." ∷ [])))
  apply rewrite' prioritize' p diags (c ∷ cs) = do
    m ← as_dict p.task
    after_rewrite prioritize' p (c ∷ cs) (has_run_schedule m) (
        rewriting rewrite' p (c ∷ cs)
          (diags ++ concat ("Classified as " ∷ join ", " (c ∷ cs) ∷ []) ∷ []))

  -- From the identities on.
  unfoldable pub classify : Bool → Bool → Proposal → List String → List String → Result Judgement
  classify rewrite' prioritize' p diags [] =
      ok (denied (join "\n" (diags ++ "Made no identifications." ∷ [])))
  classify rewrite' prioritize' p diags (i ∷ is) =
      apply rewrite' prioritize' p
        (diags ++ concat ("Identified as " ∷ join ", " (i ∷ is) ∷ []) ∷ [])
        (classifications s.classifiers (i ∷ is))

-- `process`.
unfoldable pub process :
    World → Processor → Proposal → (rewrite' prioritize' : Bool) → Result Judgement
unfolding hint_lines
process w inert p rewrite' prioritize' = ok (record {
  passed = true;
  limits = [];
  diags = "No limits were applied";
  task = none;
  priority = none;
})
process w (active s) p rewrite' prioritize' = do
  found ← identities w s.identifiers p.hints
  classify w s rewrite' prioritize' p (hint_lines p.hints) found
