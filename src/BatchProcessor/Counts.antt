-- ===== src/BatchProcessor/Counts.antt =====
-- How many tasks and results a job has.

use pscheduler.Common.{
  if◌then◌else◌, ℕ, zero, suc, String, ◌≡◌, ap, sym, ◌∙◌, ◌⊎◌, inl, inr, refl, Bool, true, false,
  List, [], ◌∷◌, length, Result, ok, Ensures, Ensures-bind, Ensures-ok, >>=-eq-ok, ◌>>=◌,
}
use pscheduler.Json.{Json, num, pos, Fields, as_number}
use pscheduler.World.{World}
use pscheduler.BatchProcessor.{
  Globals, TaskArgs, Prepared, get_or, is_enabled, backoff_of, inject_start, inject_starts,
  synchronised, perform_all, prep_job, in_step, pushed_start, prep_iteration, prep_iterations,
}

-- Injecting the start keeps the tasks' number.
inject_starts-length :
    (start : String) (as' : List TaskArgs)
    → Ensures (λ bs. length bs ≡ length as') (inject_starts start as')
unfolding inject_starts
inject_starts-length start [] = refl
inject_starts-length start (a ∷ as') = Ensures-bind _ (inject_start start a) _ λ b eb.
    Ensures-bind _ (inject_starts start as') _
      λ more em. ap suc (Ensures-ok _ (inject_starts start as') (inject_starts-length start as') em)

-- Whatever the job says of the tasks' start, none is added and none is lost.
pub synchronised-length :
    (w : World) (start : ℕ → String) (p : Prepared)
    → Ensures (λ bs. length bs ≡ length p.internal) (synchronised w start p)
unfolding synchronised
synchronised-length w start p = Ensures-bind _ (backoff_of w p.job) _ λ backoff eb.
    Ensures-bind _ (in_step p.job) _ λ sync es.
      elim sync
        as (λ (b : Bool).
          Ensures (λ bs. length bs ≡ length p.internal)
            (if b
              then (do text ← pushed_start w start p backoff; inject_starts text p.internal)
              else ok p.internal)) [
                | true ↦
                    Ensures-bind _ (pushed_start w start p backoff) _
                      λ text et. inject_starts-length text p.internal
                | false ↦ refl
              ]

pub perform_all-length :
    (perform : TaskArgs → Result Json) (as' : List TaskArgs)
    → Ensures (λ rs. length rs ≡ length as') (perform_all perform as')
unfolding perform_all
perform_all-length perform [] = refl
perform_all-length perform (a ∷ as') = Ensures-bind _ (perform a) _ λ r er.
    Ensures-bind _ (perform_all perform as') _
      λ more em. ap suc (Ensures-ok _ (perform_all perform as') (perform_all-length perform as') em)

prep_iterations-length :
    (w : World) (g : Globals) (job : Fields) (job_number backoff first count : ℕ)
    → Ensures (λ as'. length as' ≡ count) (prep_iterations w g job job_number backoff first count)
unfolding prep_iterations
prep_iterations-length w g job job_number backoff first zero = refl
prep_iterations-length w g job job_number backoff first (suc count) =
    Ensures-bind _ (prep_iteration w g job job_number backoff first) _ λ a ea.
      Ensures-bind _ (prep_iterations w g job job_number backoff (suc first) count) _ λ more em.
        ap suc (
          Ensures-ok _ (prep_iterations w g job job_number backoff (suc first) count)
            (prep_iterations-length w g job job_number backoff (suc first) count) em)

-- How many results, or tasks, a job has: none if it is disabled, and else its iterations.
abbrev pub IsCount : Fields → ℕ → Type 0
IsCount job n =
    ((is_enabled job ≡ ok false) × (n ≡ 0))
    ⊎ ((is_enabled job ≡ ok true) × (as_number (get_or "iterations" (num (pos 1)) job) ≡ ok n))

abbrev pub IsReady : Fields → Prepared → Type 0
IsReady job p = (p.job ≡ job) × IsCount job (length p.internal)

counted :
    (w : World) (g : Globals) (job_number : ℕ) (job : Fields) (enabled : Bool)
    → is_enabled job ≡ ok enabled
    → Ensures (IsReady job) (prep_job w g job_number job)
unfolding prep_job
counted w g job_number job false e = rw e (refl, inl (e, refl))
counted w g job_number job true e = rw e (
    Ensures-bind _ (as_number (get_or "iterations" (num (pos 1)) job)) _ λ n en.
      Ensures-bind _ (backoff_of w job) _ λ backoff eb.
        Ensures-bind _ (prep_iterations w g job job_number backoff 0 n) _ λ internal ei.
          let l =
            Ensures-ok _ (prep_iterations w g job job_number backoff 0 n)
              (prep_iterations-length w g job job_number backoff 0 n) ei in
          (refl, inr (e, en ∙ ap ok (sym l))))

pub prep_job-IsReady :
    (w : World) (g : Globals) (job_number : ℕ) (job : Fields) (p : Prepared)
    → prep_job w g job_number job ≡ ok p
    → IsReady job p
unfolding prep_job
prep_job-IsReady w g job_number job p h =
    let (enabled, e, rest) = >>=-eq-ok (is_enabled job) _ h in
    Ensures-ok (IsReady job) (prep_job w g job_number job) (counted w g job_number job enabled e) h
