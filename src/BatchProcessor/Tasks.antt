-- ===== src/BatchProcessor/Tasks.antt =====
-- The tasks that a job is made into.
use pscheduler.Common.{
  ℕ, zero, suc, ◌*◌, String, ◌≡◌, ap, sym, ◌∙◌, >>=-eq-ok, ◌⊎◌, inl, inr, refl, Bool, true, false,
  concat, decimal, none, some, List, [], ◌∷◌, length, All, ok, Ensures, Ensures-bind, Ensures-ok,
  ◌>>=◌, arith, eq_iff,
}
use pscheduler.Json.{Json, obj, num, pos, Fields, end, field, get, put, as_dict, as_number}
use pscheduler.World.{World}
use pscheduler.Rewriter.{remove}
use pscheduler.BatchProcessor.{
  Globals, TaskArgs, Prepared, get_or, is_enabled, label_of, backoff_of, unwanted, remove_all,
  schedule_of, transformed, still_valid, prep_iteration, prep_iterations, prep_job,
}

-- A removed key is not there.
get-remove : (k : String) (m : Fields) → get k (remove k m) ≡ none
unfolding remove
get-remove k end = refl
get-remove k (field j v m) = ground (arith, get-remove k m)

absent-remove : (k j : String) (m : Fields) → get k m ≡ none → get k (remove j m) ≡ none
unfolding remove
absent-remove k j end h = refl
absent-remove k j (field i v m) h = ground (arith, absent-remove k j m)

absent-remove_all :
    (k : String) (ks : List String) (m : Fields) → get k m ≡ none → get k (remove_all ks m) ≡ none
unfolding remove_all
absent-remove_all k [] m h = h
absent-remove_all k (j ∷ ks) m h = absent-remove_all k ks (remove j m) (absent-remove k j m h)

none_left : (ks : List String) (m : Fields) → All (λ k. get k (remove_all ks m) ≡ none) ks
unfolding remove_all
none_left [] m = tt
none_left (k ∷ ks) m =
    (absent-remove_all k ks (remove k m) (get-remove k m), none_left ks (remove k m))

absent_in_end : (ks : List String) → All (λ k. get k end ≡ none) ks
absent_in_end [] = tt
absent_in_end (k ∷ ks) = (refl, absent_in_end ks)

get-put : (k : String) (v : Json) (m : Fields) → get k (put k v m) ≡ some v
get-put k v end = ground (arith, eq_iff k k)
get-put k v (field j x m) = ground (arith, get-put k v m)

-- A task's dict has a schedule with none of the parameters that place it in time.
abbrev pub HasCleanSchedule : Json → Type 0
HasCleanSchedule spec =
    (task : Fields) × (schedule : Fields) × (spec ≡ obj task)
    × (get "schedule" task ≡ some (obj schedule))
    × All (λ k. get k schedule ≡ none) unwanted

-- The tasks of the iterations from one on: each has its iteration's label and delay.
abbrev pub AreTasks : String → ℕ → ℕ → List TaskArgs → Type 0
AreTasks label backoff first [] = Unit
AreTasks label backoff first (a ∷ as') =
    (a.label ≡ concat (label ∷ "/" ∷ decimal first ∷ []))
    × (a.delay ≡ backoff * first)
    × HasCleanSchedule a.spec
    × AreTasks label backoff (suc first) as'

schedule_of-clean :
    (task : Fields) → Ensures (λ s. All (λ k. get k s ≡ none) unwanted) (schedule_of task)
unfolding schedule_of
schedule_of-clean task =
    elim (get "schedule" task)
      as (λ o.
        Ensures (λ s. All (λ k. get k s ≡ none) unwanted)
          (elim o [
            | none ↦ ok end
            | some schedule ↦ do m ← as_dict schedule; ok (remove_all unwanted m)
          ])) [
            | none ↦ absent_in_end unwanted
            | some v ↦ Ensures-bind _ (as_dict v) _ λ m e. none_left unwanted m
          ]

prep_iteration-task :
    (w : World) (g : Globals) (job : Fields) (job_number backoff iteration : ℕ) (label : String)
    → label_of job ≡ ok label
    → Ensures
        (λ (a : TaskArgs).
          (a.label ≡ concat (label ∷ "/" ∷ decimal iteration ∷ []))
          × (a.delay ≡ backoff * iteration)
          × HasCleanSchedule a.spec)
        (prep_iteration w g job job_number backoff iteration)
unfolding prep_iteration
prep_iteration-task w g job job_number backoff iteration label l =
    Ensures-bind _ (transformed w g job job_number iteration) _ λ v ev.
      Ensures-bind _ (still_valid w job_number iteration v) _ λ u eu.
        Ensures-bind _ (as_dict v) _ λ task et. Ensures-bind _ (schedule_of task) _ λ schedule es.
          Ensures-bind _ (label_of job) _ λ label' el.
            let same : label' ≡ label = cc in
            (
              ap (λ s. concat (s ∷ "/" ∷ decimal iteration ∷ [])) same,
              refl,
              (
                put "schedule" (obj schedule) task,
                schedule,
                refl,
                get-put "schedule" (obj schedule) task,
                Ensures-ok (λ s. All (λ k. get k s ≡ none) unwanted) (schedule_of task)
                    (schedule_of-clean task) es,
              ),
            )

prep_iterations-tasks :
    (w : World) (g : Globals) (job : Fields) (job_number backoff first count : ℕ) (label : String)
    → label_of job ≡ ok label
    → Ensures
        (λ as'. AreTasks label backoff first as' × (length as' ≡ count))
        (prep_iterations w g job job_number backoff first count)
unfolding prep_iterations
prep_iterations-tasks w g job job_number backoff first zero label l = (tt, refl)
prep_iterations-tasks w g job job_number backoff first (suc count) label l =
    Ensures-bind _ (prep_iteration w g job job_number backoff first) _ λ a ea.
      Ensures-bind _ (prep_iterations w g job job_number backoff (suc first) count) _ λ more em.
        let one =
          Ensures-ok _ (prep_iteration w g job job_number backoff first)
            (prep_iteration-task w g job job_number backoff first label l) ea in
        let rest =
          Ensures-ok _ (prep_iterations w g job job_number backoff (suc first) count)
            (prep_iterations-tasks w g job job_number backoff (suc first) count label l) em in
        ((one.0, one.1, one.2, rest.0), ap suc rest.1)

-- What `__prep_job` makes of a job with a label: nothing if it is disabled, and else one task for
-- each iteration.
abbrev pub IsPrepared : World → String → Fields → Prepared → Type 0
IsPrepared w label job p =
    (p.job ≡ job)
    × (((is_enabled job ≡ ok false) × (p.internal ≡ []))
        ⊎ ((is_enabled job ≡ ok true)
            × (as_number (get_or "iterations" (num (pos 1)) job) ≡ ok (length p.internal))
            × (backoff : ℕ) × (backoff_of w job ≡ ok backoff)
            × AreTasks label backoff 0 p.internal))

enabled_job :
    (w : World) (g : Globals) (job_number : ℕ) (job : Fields) (label : String)
    → label_of job ≡ ok label
    → is_enabled job ≡ ok true
    → Ensures (IsPrepared w label job) (do
      iterations ← as_number (get_or "iterations" (num (pos 1)) job)
      backoff ← backoff_of w job
      internal ← prep_iterations w g job job_number backoff 0 iterations
      ok (record { job = job; internal = internal }))
enabled_job w g job_number job label l on =
    Ensures-bind _ (as_number (get_or "iterations" (num (pos 1)) job)) _ λ n en.
      Ensures-bind _ (backoff_of w job) _ λ backoff eb.
        Ensures-bind _ (prep_iterations w g job job_number backoff 0 n) _ λ internal ei.
          let made =
            Ensures-ok (λ as'. AreTasks label backoff 0 as' × (length as' ≡ n))
              (prep_iterations w g job job_number backoff 0 n)
              (prep_iterations-tasks w g job job_number backoff 0 n label l) ei in
          (refl, inr (on, en ∙ ap ok (sym made.1), backoff, eb, made.0))

prepared :
    (w : World) (g : Globals) (job_number : ℕ) (job : Fields) (label : String) (enabled : Bool)
    → label_of job ≡ ok label
    → is_enabled job ≡ ok enabled
    → Ensures (IsPrepared w label job) (prep_job w g job_number job)
unfolding prep_job
prepared w g job_number job label true l e = rw e (enabled_job w g job_number job label l e)
prepared w g job_number job label false l e = rw e (refl, inl (e, refl))

-- A job that is prepared keeps its keys. If it is disabled it has no tasks; if not, it has as many
-- tasks as iterations, the tasks' labels and delays are those of the iterations in order, each delay
-- the iteration's number times the backoff, and each task has a schedule without the start, the
-- repetitions, the end and the number of runs.
pub prep_job-IsPrepared :
    (w : World) (g : Globals) (job_number : ℕ) (job : Fields) (label : String) (p : Prepared)
    → label_of job ≡ ok label
    → prep_job w g job_number job ≡ ok p
    → IsPrepared w label job p
unfolding prep_job
prep_job-IsPrepared w g job_number job label p l h =
    let (enabled, e, rest) = >>=-eq-ok (is_enabled job) _ h in
    Ensures-ok (IsPrepared w label job) (prep_job w g job_number job)
      (prepared w g job_number job label enabled l e) h
