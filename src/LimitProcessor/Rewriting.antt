-- ===== src/LimitProcessor/Rewriting.antt =====
-- What the rewriter means to the verdict.
use pscheduler.Common.{
  String, ◌≡◌, ◌≢◌, refl, Bool, true, false, Option-cases, List, [], ◌∷◌, ◌++◌, Result, ok, inl,
  inr, concat, join, none, if◌then◌else◌,
}
use pscheduler.Json.{pos}
use pscheduler.World.{World}
use pscheduler.Proposal.{Proposal}
use pscheduler.ClassifierSet.{classifications}
use pscheduler.ApplicationSet.{Verdict}
use pscheduler.LimitProcessor.{
  Stages, active, Judgement, AfterRewrite, judge, priorities, rewriting, after_rewrite, apply,
  classify, process,
}
use pscheduler.LimitProcessor.Hints.{hint_lines}
use pscheduler.LimitProcessor.Denial.{Approved, process-Approved}

module _ (w : World) (s : Stages) where
  -- A judgement that lets the proposal pass.
  abbrev Passing : Result Judgement → Type 0
  Passing r = (j : Judgement) × (r ≡ ok j) × (j.passed ≡ true)

  not_rewritten :
      (p : Proposal) (classifiers diags : List String)
      → rewriting w s false p classifiers diags
        ≡ ok (record { new_task = none; task = p.task; diags = diags })
  unfolding rewriting
  not_rewritten p classifiers diags = elim (Option-cases s.rewriter) [
    | inl e ↦ rw e
    | inr (f, e) ↦ rw e
  ]

  default_priority :
      (classifiers diags : List String) (v : Verdict) (a : AfterRewrite)
      → v.passed ≡ true
      → Passing (priorities w s false classifiers v a diags)
  unfolding priorities judge
  default_priority classifiers diags v a e =
      let j = judge w s v a.new_task (pos 0) (diags ++ "Priority set to default of 0" ∷ []) in
      elim (Option-cases s.prioritizer) [ inl n ↦ (j, rw n, e) | inr (f, n) ↦ (j, rw n, e) ]

  apply-Passing :
      (p : Proposal) (diags cs : List String)
      → cs ≢ []
      → Approved w s p cs
      → Passing (apply w s false false p diags cs)
  unfolding apply after_rewrite
  apply-Passing p diags [] n a = absurd (n refl)
  apply-Passing p diags (c ∷ cs) n a =
      let lines = diags ++ concat ("Classified as " ∷ join ", " (c ∷ cs) ∷ []) ∷ [] in
      let meets =
        a.verdict.diags
        ∷ concat
            ("Proposal " ∷ (if a.verdict.passed then "meets" else "does not meet") ∷ " limits" ∷ [])
        ∷ [] in
      let plain : AfterRewrite = record { new_task = none; task = p.task; diags = lines } in
      let (j, e, passed) = default_priority (c ∷ cs) (lines ++ meets) a.verdict plain a.passed in
      (j, rw (a.is_task, not_rewritten p (c ∷ cs), a.checked) e, passed)

  classify-Passing :
      (p : Proposal) (diags found : List String)
      → found ≢ []
      → classifications s.classifiers found ≢ []
      → Approved w s p (classifications s.classifiers found)
      → Passing (classify w s false false p diags found)
  unfolding classify
  classify-Passing p diags [] n n' a = absurd (n refl)
  classify-Passing p diags (i ∷ is) n n' a = apply-Passing p _ _ n' a

  -- A proposal that a processor lets pass with the rewriter on, whatever the rewriter made of it, it
  -- lets pass as well with the rewriter off and no priority asked for.
  pub passes_without_rewriting :
      (p : Proposal) (prioritize' : Bool) (j : Judgement)
      → process w (active s) p true prioritize' ≡ ok j
      → j.passed ≡ true
      → (j' : Judgement) × (process w (active s) p false false ≡ ok j') × (j'.passed ≡ true)
  unfolding process
  passes_without_rewriting p prioritize' j h e =
      let (found, e1, n, n', a) = process-Approved w s p true prioritize' j h e in
      let (j', e2, passed) = classify-Passing p (hint_lines p.hints) found n n' a in
      (j', rw e1 e2, passed)
