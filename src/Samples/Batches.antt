-- ===== src/Samples/Batches.antt =====
-- A batch of one disabled and one repeated job, and one task's run.

use pscheduler.Common.{ℕ, String, ◌≡◌, refl, true, false, none, some, [], ok, Result, decimal}
use pscheduler.Json.{
  Json, num, pos, bool, str, arr, obj, nil, cons, Fields, end, field, get_item, as_text, as_bool,
  as_number, as_list, as_dict,
}
use pscheduler.Samples.Worlds.{world}
use pscheduler.BatchProcessor.{
  Globals, TaskArgs, Prepared, identity, get_or, is_enabled, label_of, backoff_of, prep_job,
  prep_jobs, prep_iterations, prep_iteration, transformed, still_valid, schedule_of, remove_all,
  call, run_jobs, run_job, run_tasks, synchronised, in_step, pushed_start, inject_starts,
  inject_start, perform_all, array,
}
use pscheduler.BatchProcessor.Transform.{apply_transform, attempt, handled, joined, characters}
use pscheduler.BatchProcessor.Tasks.{IsPrepared, prep_job-IsPrepared}
use pscheduler.BatchProcessor.Results.{IsBatchResult, call-IsBatchResult}
use pscheduler.BatchProcessor.RunTask.{run_task}
use pscheduler.BatchProcessor.RunTask.Endings.{Always, IsEnding}
use pscheduler.BatchProcessor.RunTask.Outcomes.{run_task-IsEnding}
use pscheduler.Api.{Hosts}
use pscheduler.JqFilter
use pscheduler.Limit.TestType.{texts}
use pscheduler.Rewriter.{remove}

abbrev globals : Globals
globals = record { value = str "g"; transform_pre = identity; transform_post = identity }

-- A task whose schedule has a start and a slip.
abbrev task : Fields
task =
    field "test" (obj (field "type" (str "rtt") (field "spec" (obj end) end)))
      (field "schedule" (obj (field "start" (str "PT1M") (field "slip" (str "PT5M") end))) end)

abbrev repeated : Fields
repeated = field "label" (str "twice") (
    field "iterations" (num (pos 2))
      (field "parallel" (bool true) (field "backoff" (str "PT1M") (field "task" (obj task) end))))

abbrev disabled : Fields
disabled = field "enabled" (bool false) (field "task" (obj task) end)

abbrev prepared_of : Result Prepared → Prepared
prepared_of (ok p) = p
prepared_of r = record { job = end; internal = [] }

abbrev prepared : Prepared
prepared = prepared_of (prep_job world globals 1 repeated)

labelled : label_of repeated ≡ ok "twice"
unfolding label_of get_or as_text
labelled = refl

is_prepared : prep_job world globals 1 repeated ≡ ok prepared
unfolding prep_job is_enabled as_bool get_or as_number backoff_of as_text prep_iterations
    prep_iteration transformed get_item apply_transform handled attempt joined JqFilter.construct
    JqFilter.spec JqFilter.spec_text characters label_of remove_all schedule_of still_valid decimal
    JqFilter.arg_lines JqFilter.call JqFilter.first JqFilter.run JqFilter.shown as_dict texts remove
is_prepared = refl

prep_job-IsPrepared_example : IsPrepared world "twice" repeated prepared
prep_job-IsPrepared_example =
    prep_job-IsPrepared world globals 1 repeated "twice" prepared labelled is_prepared

abbrev batch : Json
batch = obj (field "jobs" (arr (cons (obj disabled) (cons (obj repeated) nil))) end)

abbrev start_text : ℕ → String
start_text ahead = "later"

-- What comes of a task is its label here.
abbrev perform : TaskArgs → Result Json
perform a = ok (str a.label)

abbrev result : Json
result = obj (
    field "jobs"
      (arr (
        cons
          (obj (
            field "enabled" (bool false) (field "task" (obj task) (field "results" (arr nil) end))))
          (cons
            (obj (
              field "label" (str "twice") (
                field "iterations" (num (pos 2)) (
                  field "parallel" (bool true) (
                    field "backoff" (str "PT1M") (
                      field "task" (obj task) (
                        field "results" (arr (cons (str "twice/0") (cons (str "twice/1") nil)))
                          end)))))))
            nil)))
      end)

batch_runs : call world start_text perform globals batch ≡ ok result
unfolding call as_list prep_jobs array in_step inject_start inject_starts perform_all pushed_start
    run_job run_jobs run_tasks synchronised prep_job is_enabled as_bool get_or as_number backoff_of
    as_text prep_iterations prep_iteration transformed get_item apply_transform handled attempt
    joined JqFilter.construct JqFilter.spec JqFilter.spec_text characters label_of remove_all
    schedule_of still_valid decimal JqFilter.arg_lines JqFilter.call JqFilter.first JqFilter.run
    JqFilter.shown as_dict texts remove
batch_runs = refl

call-IsBatchResult_example : IsBatchResult batch result
call-IsBatchResult_example =
    call-IsBatchResult world start_text perform globals batch result batch_runs

joined_ab : joined (str "a.b") ≡ ok "a\n.\nb"
unfolding joined characters
joined_ab = refl

abbrev hosts : Hosts
hosts = record {
  idna = λ s. some s;
  is_ipv6 = λ s. false;
  hostname = λ s. some "localhost";
  port = λ s. none;
}

abbrev ping : TaskArgs
ping = record { label = "twice/0"; delay = 60; spec = obj task }

run_task-IsEnding_example :
    Always (IsEnding (obj task) "{}") [] (run_task world hosts "localhost" false ping)
run_task-IsEnding_example = run_task-IsEnding world hosts "localhost" false ping
