-- ===== src/Limit/RunSchedule/Fields.antt =====
-- Which of its fields decide whether a run schedule limit passes.
use pscheduler.Common.{
  ◌≡◌, ◌↔◌, refl, Bool, true, false, List, [], ◌∷◌, String, Result, ok, err, ◌>>=◌, All, arith,
  if◌then◌else◌,
}
use pscheduler.World.{World}
use pscheduler.Proposal.{Proposal, passes}
use pscheduler.Limit.RunDateRange.{Run, run_of}
use pscheduler.Limit.RunSchedule.{
  RunSchedule, Row, table, mismatch, match_failures, verdict, evaluate,
}

-- One round of the loop leaves no failure only if its row matched and the others left none.
joined :
    (m : Result Bool) (rest : Result (List String)) (n : String)
    → (do failed ← m; more ← rest; ok (if failed then n ∷ more else more)) ≡ ok []
    → (m ≡ ok false) × (rest ≡ ok [])
joined (ok true) (ok ns) n h = cc
joined (ok false) (ok ns) n h = (refl, h)
joined (ok true) (err e) n h = cc
joined (ok false) (err e) n h = cc
joined (err e) rest n h = cc

no_failures :
    (l : RunSchedule) (rows : List Row)
    → (match_failures l rows ≡ ok []) ↔ All (λ r. mismatch l r ≡ ok false) rows
unfolding match_failures
no_failures l [] = ((λ _. tt), λ _. refl)
no_failures l (r ∷ rs) = (
  (λ h.
      let (e, more) = joined (mismatch l r) (match_failures l rs) r.name h in
      (e, (no_failures l rs).0 more)),
  λ (e, more). rw e (rw ((no_failures l rs).1 more)),
)

passing_verdict :
    (r : Result (List String)) → ((do ns ← r; ok (verdict ns)) ≡ ok passes) ↔ (r ≡ ok [])
unfolding verdict
passing_verdict (ok []) = ((λ _. refl), λ _. refl)
passing_verdict (ok (n ∷ ns)) = ((λ h. ground arith), λ h. cc)
passing_verdict (err e) = ((λ h. cc), λ h. cc)

-- Where the run's times can be read, the limit passes exactly if no row of the table is a mismatch:
-- each of the eight fields that the limit names matches, without an exception.
evaluate-passes :
    (w : World) (l : RunSchedule) (p : Proposal) (run : Run)
    → run_of w p ≡ ok run
    → (evaluate w l p ≡ ok passes) ↔ All (λ r. mismatch l r ≡ ok false) (table run.start run.end)
unfolding evaluate
evaluate-passes w l p run e = rw e (
  (λ h. (no_failures l _).0 ((passing_verdict (match_failures l _)).0 h)),
  λ h. (passing_verdict (match_failures l _)).1 ((no_failures l _).1 h),
)
