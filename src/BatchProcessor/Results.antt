-- ===== src/BatchProcessor/Results.antt =====
-- The results of a batch.
use mathlib.Core.Path.{subst}
use pscheduler.Common.{
  ℕ, suc, String, ◌≡◌, ap, sym, ◌∙◌, inl, refl, Bool, true, false, List, [], ◌∷◌, length, Result,
  ok, Ensures, Ensures-bind, Ensures-ok, ◌>>=◌,
}
use pscheduler.Json.{Json, null, obj, arr, num, str, Fields, put, get_item, as_dict, as_list}
use pscheduler.World.{World}
use pscheduler.BatchProcessor.{
  Globals, TaskArgs, Prepared, is_enabled, synchronised, perform_all, array, run_tasks, run_job,
  run_jobs, prep_job, prep_jobs, call,
}
use pscheduler.BatchProcessor.Counts.{
  IsCount, IsReady, synchronised-length, perform_all-length, prep_job-IsReady,
}

-- A job of the result: the job as it was, with results under `results`, one for each task.
abbrev pub IsDone : Json → Json → Type 0
IsDone v d =
    (job : Fields) × (results : List Json) × (v ≡ obj job)
    × (d ≡ obj (put "results" (arr (array results)) job))
    × IsCount job (length results)

-- The jobs of the result are those of the specification, in order.
abbrev pub AreDone : List Json → List Json → Type 0
AreDone [] [] = Unit
AreDone [] (d ∷ ds) = ⊥
AreDone (v ∷ vs) [] = ⊥
AreDone (v ∷ vs) (d ∷ ds) = IsDone v d × AreDone vs ds

ran :
    (w : World) (start : ℕ → String) (perform : TaskArgs → Result Json) (job : Fields)
    (p : Prepared) (enabled : Bool)
    → is_enabled p.job ≡ ok enabled
    → IsReady job p
    → Ensures (IsDone (obj job)) (run_tasks w start perform p enabled)
unfolding run_tasks array
ran w start perform job p false e r =
    let off : is_enabled job ≡ ok false = ap is_enabled (sym r.0) ∙ e in
    (
      job,
      [],
      refl,
      ap (λ (j : Fields). obj (put "results" (arr (array [])) j)) r.0,
      inl (off, refl),
    )
ran w start perform job p true e r = Ensures-bind _ (synchronised w start p) _ λ tasks et.
    Ensures-bind _ (perform_all perform tasks) _ λ results er.
      let l : length results ≡ length p.internal =
        Ensures-ok (λ rs. length rs ≡ length tasks) (perform_all perform tasks)
          (perform_all-length perform tasks) er
        ∙ Ensures-ok (λ bs. length bs ≡ length p.internal) (synchronised w start p)
            (synchronised-length w start p) et in
      (
        job,
        results,
        refl,
        ap (λ (j : Fields). obj (put "results" (arr (array results)) j)) r.0,
        subst (IsCount job) (sym l) r.1,
      )

run_job-IsDone :
    (w : World) (start : ℕ → String) (perform : TaskArgs → Result Json) (job : Fields)
    (p : Prepared)
    → IsReady job p
    → Ensures (IsDone (obj job)) (run_job w start perform p)
unfolding run_job
run_job-IsDone w start perform job p r =
    Ensures-bind _ (is_enabled p.job) _ λ enabled e. ran w start perform job p enabled e r

-- The prepared jobs, one for each job of the specification.
abbrev AreReady : List Json → List Prepared → Type 0
AreReady [] [] = Unit
AreReady [] (p ∷ ps) = ⊥
AreReady (v ∷ vs) [] = ⊥
AreReady (v ∷ vs) (p ∷ ps) = ((job : Fields) × (v ≡ obj job) × IsReady job p) × AreReady vs ps

as_dict-obj : (v : Json) → Ensures (λ m. v ≡ obj m) (as_dict v)
unfolding as_dict
as_dict-obj (obj m) = refl
as_dict-obj null = tt
as_dict-obj (Json.bool b) = tt
as_dict-obj (num n) = tt
as_dict-obj (str s) = tt
as_dict-obj (arr vs) = tt

prep_jobs-AreReady :
    (w : World) (g : Globals) (job_number : ℕ) (vs : List Json)
    → Ensures (AreReady vs) (prep_jobs w g job_number vs)
unfolding prep_jobs
prep_jobs-AreReady w g job_number [] = tt
prep_jobs-AreReady w g job_number (v ∷ vs) = Ensures-bind _ (as_dict v) _ λ job ej.
    Ensures-bind _ (prep_job w g job_number job) _ λ p ep.
      Ensures-bind _ (prep_jobs w g (suc job_number) vs) _ λ more em. (
        (
          job,
          Ensures-ok _ (as_dict v) (as_dict-obj v) ej,
          prep_job-IsReady w g job_number job p ep,
        ),
        Ensures-ok (AreReady vs) (prep_jobs w g (suc job_number) vs)
            (prep_jobs-AreReady w g (suc job_number) vs) em,
      )

run_jobs-AreDone :
    (w : World) (start : ℕ → String) (perform : TaskArgs → Result Json) (vs : List Json)
    (ps : List Prepared)
    → AreReady vs ps
    → Ensures (AreDone vs) (run_jobs w start perform ps)
unfolding run_jobs
run_jobs-AreDone w start perform [] [] r = tt
run_jobs-AreDone w start perform [] (p ∷ ps) r = absurd r
run_jobs-AreDone w start perform (v ∷ vs) [] r = absurd r
run_jobs-AreDone w start perform (v ∷ vs) (p ∷ ps) r =
    Ensures-bind _ (run_job w start perform p) _ λ d ed.
      Ensures-bind _ (run_jobs w start perform ps) _ λ more em.
        let done =
          Ensures-ok (IsDone (obj r.0.0)) (run_job w start perform p)
            (run_job-IsDone w start perform r.0.0 p r.0.2) ed in
        (
          subst (λ (x : Json). IsDone x d) (sym r.0.1) done,
          Ensures-ok (AreDone vs) (run_jobs w start perform ps)
              (run_jobs-AreDone w start perform vs ps r.1) em,
        )

-- What a batch gives.
abbrev pub IsBatchResult : Json → Json → Type 0
IsBatchResult spec result =
    (m : Fields) × (jobs : List Json) × (done : List Json) × (spec ≡ obj m)
    × ((get_item spec "jobs" >>= as_list) ≡ ok jobs)
    × (result ≡ obj (put "jobs" (arr (array done)) m))
    × AreDone jobs done

batch_result :
    (w : World) (start : ℕ → String) (perform : TaskArgs → Result Json) (g : Globals) (spec : Json)
    → Ensures (IsBatchResult spec) (call w start perform g spec)
unfolding call
batch_result w start perform g spec = Ensures-bind _ (as_dict spec) _ λ m em.
    Ensures-bind _ (get_item spec "jobs") _ λ j ej. Ensures-bind _ (as_list j) _ λ jobs el.
      Ensures-bind _ (prep_jobs w g 0 jobs) _ λ prepared ep.
        Ensures-bind _ (run_jobs w start perform prepared) _ λ done ed.
          let ready =
            Ensures-ok (AreReady jobs) (prep_jobs w g 0 jobs) (prep_jobs-AreReady w g 0 jobs) ep in
          (
            m,
            jobs,
            done,
            Ensures-ok _ (as_dict spec) (as_dict-obj spec) em,
            rw (ej, el) refl,
            refl,
            Ensures-ok (AreDone jobs) (run_jobs w start perform prepared)
                (run_jobs-AreDone w start perform jobs prepared ready) ed,
          )

-- A batch that returns gives its specification with each job, in order, as it was but for its
-- results: none for a disabled job, and else one for each of its iterations, whether the job runs in
-- parallel or not.
pub call-IsBatchResult :
    (w : World) (start : ℕ → String) (perform : TaskArgs → Result Json) (g : Globals)
    (spec result : Json)
    → call w start perform g spec ≡ ok result
    → IsBatchResult spec result
call-IsBatchResult w start perform g spec result h =
    Ensures-ok (IsBatchResult spec) (call w start perform g spec)
      (batch_result w start perform g spec) h
