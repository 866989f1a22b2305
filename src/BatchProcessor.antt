-- ===== src/BatchProcessor.antt =====
-- `BatchProcessor` of python-pscheduler/pscheduler/pscheduler/batchprocessor/batchprocessor.py: the
-- jobs of a batch made into tasks, and the batch run. What comes of one task's run is an argument
-- here.
pub mod Transform
pub mod Tasks
pub mod RunTask
pub mod Counts
pub mod Results
use pscheduler.Common.{
  ℕ, zero, suc, ◌+◌, ◌*◌, String, Bool, true, false, not, ◌&&◌, concat, decimal, Option, none, some,
  List, [], ◌∷◌, length, Result, ok, err, key_error, value_error, ◌>>=◌, ◌>>◌, if◌then◌else◌, map,
}
use pscheduler.Json.{
  Json, null, num, pos, str, arr, obj, Items, nil, cons, Fields, end, field, get, put, get_item,
  as_text, as_bool, as_number, as_dict, as_list,
}
use pscheduler.World.{World}
use pscheduler.Rewriter.{remove}
use pscheduler.BatchProcessor.Transform.{apply_transform}

-- What the constructor takes from the specification's global part.
pub record Globals : Type 0 where
  pub value : Json
  pub transform_pre : Json
  pub transform_post : Json

-- The transform that changes nothing.
abbrev pub identity : Json
identity = obj (field "script" (str ".") end)

-- `spec["global"][key]`, with a default for a KeyError.
from_global : Json → String → Json → Result Json
from_global spec key default = elim (get_item spec "global") [
  | err (key_error k) ↦ ok default
  | err e ↦ err e
  | ok g ↦ elim (get_item g key) [ err (key_error k) ↦ ok default | err e ↦ err e | ok v ↦ ok v ]
]

-- The schema's verdict and the defaults. That pScheduler runs on the assisting host is not part of
-- it.
unfoldable pub construct : World → Json → Result Globals
unfolding from_global
construct w spec = do
  elim (w.json_validate "BatchInput" spec) [
    | none ↦ ok tt
    | some message ↦ err (value_error message)
  ]
  value ← from_global spec "data" null
  pre ← from_global spec "transform-pre" identity
  post ← from_global spec "transform-post" identity
  ok (record { value = value; transform_pre = pre; transform_post = post })

-- One tuple of `run_task_args`, without the two arguments of the call that all of them hold. The
-- delay is in microseconds.
pub record TaskArgs : Type 0 where
  pub label : String
  pub delay : ℕ
  pub spec : Json

-- A job with what is kept in it under `__internal__`.
pub record Prepared : Type 0 where
  pub job : Fields
  pub internal : List TaskArgs

-- `job.get(key, default)`.
unfoldable pub get_or : String → Json → Fields → Json
get_or key default job = elim (get key job) [ none ↦ default | some v ↦ v ]

unfoldable pub is_enabled : Fields → Result Bool
is_enabled job = as_bool (get_or "enabled" (Json.bool true) job)

unfoldable pub label_of : Fields → Result String
label_of job = as_text (get_or "label" (str "unlabeled") job)

-- `iso8601_as_timedelta(job.get("backoff", "P0D"))`.
unfoldable pub backoff_of : World → Fields → Result ℕ
backoff_of w job = do text ← as_text (get_or "backoff" (str "P0D") job); w.as_timedelta text

-- The parameters of a schedule that are removed.
abbrev pub unwanted : List String
unwanted = "start" ∷ "repeat" ∷ "repeat-cron" ∷ "until" ∷ "max-runs" ∷ []

unfoldable pub remove_all : List String → Fields → Fields
remove_all [] m = m
remove_all (k ∷ ks) m = remove_all ks (remove k m)

unfoldable pub schedule_of : Fields → Result Fields
schedule_of task = elim (get "schedule" task) [
  | none ↦ ok end
  | some schedule ↦ do m ← as_dict schedule; ok (remove_all unwanted m)
]

-- The three transforms of one iteration.
unfoldable pub transformed : World → Globals → Fields → ℕ → ℕ → Result Json
transformed w g job job_number iteration = do
  let args = obj (field "global" g.value (field "iteration" (num (pos iteration)) end))
  task ← get_item (obj job) "task"
  pre ← apply_transform w task (some g.transform_pre) args "/global/transform-pre"
  own ←
      apply_transform w pre (get "task-transform" job) args
        (concat ("/jobs/" ∷ decimal job_number ∷ "/task-transform" ∷ []))
  apply_transform w own (some g.transform_post) args "/global/transform-post"

-- The check that a transformed task is still a task.
unfoldable pub still_valid : World → ℕ → ℕ → Json → Result (Unit {0})
still_valid w job_number iteration v = elim (w.json_validate "TaskSpecification" v) [
  | none ↦ ok tt
  | some message ↦ err (
      value_error (
        concat (
          "At /jobs/"
          ∷ decimal job_number
          ∷ "/task iteration "
          ∷ decimal iteration
          ∷ ": "
          ∷ message
          ∷ [])))
]

unfoldable pub prep_iteration : World → Globals → Fields → ℕ → ℕ → ℕ → Result TaskArgs
prep_iteration w g job job_number backoff iteration = do
  v ← transformed w g job job_number iteration
  still_valid w job_number iteration v
  task ← as_dict v
  schedule ← schedule_of task
  label ← label_of job
  ok (record {
    label = concat (label ∷ "/" ∷ decimal iteration ∷ []);
    delay = backoff * iteration;
    spec = obj (put "schedule" (obj schedule) task);
  })

-- `for iteration in range(first, first + count)`.
unfoldable pub prep_iterations :
    World → Globals → Fields → ℕ → ℕ → (first count : ℕ) → Result (List TaskArgs)
prep_iterations w g job job_number backoff first zero = ok []
prep_iterations w g job job_number backoff first (suc count) = do
  a ← prep_iteration w g job job_number backoff first
  more ← prep_iterations w g job job_number backoff (suc first) count
  ok (a ∷ more)

unfoldable pub prep_job : World → Globals → ℕ → Fields → Result Prepared
prep_job w g job_number job = do
  enabled ← is_enabled job
  if not enabled then ok (record { job = job; internal = [] }) else do
    iterations ← as_number (get_or "iterations" (num (pos 1)) job)
    backoff ← backoff_of w job
    internal ← prep_iterations w g job job_number backoff 0 iterations
    ok (record { job = job; internal = internal })

unfoldable pub prep_jobs : World → Globals → ℕ → List Json → Result (List Prepared)
prep_jobs w g job_number [] = ok []
prep_jobs w g job_number (v ∷ vs) = do
  job ← as_dict v
  p ← prep_job w g job_number job
  more ← prep_jobs w g (suc job_number) vs
  ok (p ∷ more)

-- `spec["schedule"]["start"] = start`.
unfoldable pub inject_start : String → TaskArgs → Result TaskArgs
inject_start start a = do
  spec ← as_dict a.spec
  s ← get_item (obj spec) "schedule"
  schedule ← as_dict s
  ok (record a { spec = obj (put "schedule" (obj (put "start" (str start) schedule)) spec) })

unfoldable pub inject_starts : String → List TaskArgs → Result (List TaskArgs)
inject_starts start [] = ok []
inject_starts start (a ∷ as') = do
  b ← inject_start start a
  more ← inject_starts start as'
  ok (b ∷ more)

-- The results of the tasks, in order: `pool.imap` keeps it, and raises what the first task that
-- raised an exception did, as the loop does.
unfoldable pub perform_all : (TaskArgs → Result Json) → List TaskArgs → Result (List Json)
perform_all perform [] = ok []
perform_all perform (a ∷ as') = do r ← perform a; more ← perform_all perform as'; ok (r ∷ more)

unfoldable pub array : List Json → Items
array [] = nil
array (v ∷ vs) = cons v (array vs)

-- Whether the tasks start at the same time: `sync-start` is read for a parallel job only.
unfoldable pub in_step : Fields → Result Bool
in_step job = do
  parallel ← as_bool (get_or "parallel" (Json.bool false) job)
  if parallel then as_bool (get_or "sync-start" (Json.bool true) job) else ok false

-- The start after all backoffs and the time to set up. `start` gives the text of the time that lies
-- a duration ahead.
unfoldable pub pushed_start : World → (start : ℕ → String) → Prepared → ℕ → Result String
pushed_start w start p backoff = do
  text ← as_text (get_or "setup-time" (str "PT15S") p.job)
  setup ← w.as_timedelta text
  ok (start (backoff * length p.internal + setup))

unfoldable pub synchronised : World → (start : ℕ → String) → Prepared → Result (List TaskArgs)
synchronised w start p = do
  backoff ← backoff_of w p.job
  sync ← in_step p.job
  if sync
      then (do text ← pushed_start w start p backoff; inject_starts text p.internal)
      else ok p.internal

-- The second loop's body: the job with its results.
unfoldable pub run_tasks :
    World → (ℕ → String) → (TaskArgs → Result Json) → Prepared → Bool → Result Json
run_tasks w start perform p false = ok (obj (put "results" (arr nil) p.job))
run_tasks w start perform p true = do
  tasks ← synchronised w start p
  results ← perform_all perform tasks
  ok (obj (put "results" (arr (array results)) p.job))

unfoldable pub run_job : World → (ℕ → String) → (TaskArgs → Result Json) → Prepared → Result Json
run_job w start perform p = do enabled ← is_enabled p.job; run_tasks w start perform p enabled

unfoldable pub run_jobs :
    World → (ℕ → String) → (TaskArgs → Result Json) → List Prepared → Result (List Json)
run_jobs w start perform [] = ok []
run_jobs w start perform (p ∷ ps) = do
  job ← run_job w start perform p
  more ← run_jobs w start perform ps
  ok (job ∷ more)

-- `__call__`: every job is prepared before the first task runs.
unfoldable pub call : World → (ℕ → String) → (TaskArgs → Result Json) → Globals → Json → Result Json
call w start perform g spec = do
  m ← as_dict spec
  j ← get_item spec "jobs"
  jobs ← as_list j
  prepared ← prep_jobs w g 0 jobs
  done ← run_jobs w start perform prepared
  ok (obj (put "jobs" (arr (array done)) m))
