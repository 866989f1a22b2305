-- ===== src/LimitProcessor/Denial.antt =====
-- What it takes for a proposal to pass.
use pscheduler.Common.{
  String, ◌≡◌, ◌≢◌, Bool, true, List, [], ◌∷◌, Result, ok, err, >>=-eq-ok, arith, Bool-cases, inl,
  inr,
}
use pscheduler.Json.{Fields, as_dict}
use pscheduler.World.{World}
use pscheduler.Proposal.{Proposal}
use pscheduler.IdentifierSet.{identities}
use pscheduler.ClassifierSet.{classifications}
use pscheduler.ApplicationSet.{Verdict, check_applications}
use pscheduler.LimitProcessor.{
  Stages, active, Judgement, AfterRewrite, judge, priorities, after_rewrite, apply, classify,
  process, has_run_schedule,
}

-- The applications let the proposal pass under the classifications, its schedule judged if it has
-- one.
pub record Approved (w : World) (s : Stages) (p : Proposal) (classifiers : List String)
    : Type 0 where
  pub task : Fields
  pub is_task : as_dict p.task ≡ ok task
  pub verdict : Verdict
  pub checked :
      check_applications w s.limits p classifiers (has_run_schedule task) s.applications
      ≡ ok verdict
  pub passed : verdict.passed ≡ true

module _ (w : World) (s : Stages) where
  priorities-passed :
      (wanted : Bool) (classifiers : List String) (v : Verdict) (a : AfterRewrite)
      (diags : List String) (j : Judgement)
      → priorities w s wanted classifiers v a diags ≡ ok j
      → j.passed ≡ true
      → v.passed ≡ true
  unfolding priorities judge
  priorities-passed wanted classifiers v a diags j h e = elim (Bool-cases v.passed) [
    | inl y ↦ y
    | inr n ↦ ground arith
  ]

  after_rewrite-Approved :
      (wanted : Bool) (p : Proposal) (classifiers : List String) (m : Fields)
      (r : Result AfterRewrite) (j : Judgement)
      → as_dict p.task ≡ ok m
      → after_rewrite w s wanted p classifiers (has_run_schedule m) r ≡ ok j
      → j.passed ≡ true
      → Approved w s p classifiers
  unfolding after_rewrite
  after_rewrite-Approved wanted p classifiers m (err e) j d h e' = absurd (ground arith)
  after_rewrite-Approved wanted p classifiers m (ok a) j d h e' =
      let (v, checked, h') =
        >>=-eq-ok (check_applications w s.limits p classifiers (has_run_schedule m) s.applications)
          _ h in
      record {
        task = m;
        is_task = d;
        verdict = v;
        checked = checked;
        passed = priorities-passed wanted classifiers v a _ j h' e';
      }

  apply-Approved :
      (rewrite' prioritize' : Bool) (p : Proposal) (diags cs : List String) (j : Judgement)
      → apply w s rewrite' prioritize' p diags cs ≡ ok j
      → j.passed ≡ true
      → (cs ≢ []) × Approved w s p cs
  unfolding apply
  apply-Approved rewrite' prioritize' p diags [] j h e = absurd (ground arith)
  apply-Approved rewrite' prioritize' p diags (c ∷ cs) j h e =
      let (m, e1, h1) = >>=-eq-ok (as_dict p.task) _ h in
      ((λ none'. cc), after_rewrite-Approved prioritize' p (c ∷ cs) m _ j e1 h1 e)

  classify-Approved :
      (rewrite' prioritize' : Bool) (p : Proposal) (diags found : List String) (j : Judgement)
      → classify w s rewrite' prioritize' p diags found ≡ ok j
      → j.passed ≡ true
      → (found ≢ [])
        × (classifications s.classifiers found ≢ [])
        × Approved w s p (classifications s.classifiers found)
  unfolding classify
  classify-Approved rewrite' prioritize' p diags [] j h e = absurd (ground arith)
  classify-Approved rewrite' prioritize' p diags (i ∷ is) j h e =
      let (some_class, approved) = apply-Approved rewrite' prioritize' p _ _ j h e in
      ((λ none'. cc), some_class, approved)

  -- A processor with a limit file lets a proposal pass only if its hints give some identity, those
  -- identities some classification, and the applications let the proposal pass under those
  -- classifications, the proposal being the one that was made and not a rewritten one.
  pub process-Approved :
      (p : Proposal) (rewrite' prioritize' : Bool) (j : Judgement)
      → process w (active s) p rewrite' prioritize' ≡ ok j
      → j.passed ≡ true
      → (found : List String) × (identities w s.identifiers p.hints ≡ ok found)
        × (found ≢ [])
        × (classifications s.classifiers found ≢ [])
        × Approved w s p (classifications s.classifiers found)
  unfolding process
  process-Approved p rewrite' prioritize' j h e =
      let (found, e1, h1) = >>=-eq-ok (identities w s.identifiers p.hints) _ h in
      let (a, b, c) = classify-Approved rewrite' prioritize' p _ found j h1 e in
      (found, e1, a, b, c)
