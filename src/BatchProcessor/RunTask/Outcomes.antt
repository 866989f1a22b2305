-- ===== src/BatchProcessor/RunTask/Outcomes.antt =====
-- What one task's run posts and gives, whatever the servers answer.
use pscheduler.Common.{
  ℕ, zero, suc, String, inl, inr, refl, Bool, true, false, not, if◌then◌else◌, ◌==◌, ◌||◌, Option,
  none, some, List, [], ◌∷◌, Result,
}
use pscheduler.Json.{Json, Fields, get, get_item, as_text, as_list, as_dict}
use pscheduler.World.{World}
use pscheduler.PsJson.{json_dump}
use pscheduler.Api.{Hosts, api_url}
use pscheduler.BatchProcessor.{TaskArgs}
use pscheduler.BatchProcessor.RunTask.{
  Reply, answered, threw, Script, fetch_formats, fetch_results, fetch_runs, wait_result, wait_end,
  check_keys, first_run, fetch_task, posted, delayed, post_task, run_task, has_member, lead_host,
  first_of,
}
use pscheduler.BatchProcessor.RunTask.Endings.{
  Always, IsEnding, IsDry, fails_well, try_well, reply_well, if_well, try_key_well, try_value_well,
}

module _ (w : World) (h : Hosts) (spec : Json) (body : String) where
  fetch_formats_well :
      (formats : List String) (href : Json) (run_set : Fields) (rest : Fields → Script)
      → ((m : Fields) → Always (IsEnding spec body) (body ∷ []) (rest m))
      → Always (IsEnding spec body) (body ∷ []) (fetch_formats w h formats href run_set rest)
  unfolding fetch_formats
  fetch_formats_well [] href run_set rest k = k run_set
  fetch_formats_well (format ∷ formats) href run_set rest k = λ r.
      reply_well spec body (body ∷ []) r _ (inr refl)
        λ status text. fetch_formats_well formats href _ rest k

  fetch_results_well :
      (merged : Option Json) (href : Json) (run_set : Fields) (rest : Fields → Script)
      → ((m : Fields) → Always (IsEnding spec body) (body ∷ []) (rest m))
      → Always (IsEnding spec body) (body ∷ []) (fetch_results w h merged href run_set rest)
  unfolding fetch_results
  fetch_results_well none href run_set rest k = k run_set
  fetch_results_well (some v) href run_set rest k = fetch_formats_well _ href run_set rest k

  fetch_runs_well :
      (runs : Json) (list run_data : List Json)
      → Always (IsEnding spec body) (body ∷ []) (fetch_runs w h spec runs list run_data)
  unfolding fetch_runs
  fetch_runs_well runs [] run_data = inr (refl, (run_data, refl))
  fetch_runs_well runs (run ∷ more) run_data = λ r.
      reply_well spec body (body ∷ []) r _ (inr refl) λ status run_json.
        if_well spec body (body ∷ []) (not (status == 200)) _ _ (inl (inr refl, inr (_, refl))) (
          try_well spec body (body ∷ []) (get_item run_json "result-href") _ (inr refl) λ href.
            try_well spec body (body ∷ []) (as_dict run_json) _ (inr refl) λ m.
              fetch_results_well (get "result-merged" m) href _ _
                λ run_set. fetch_runs_well runs more _)

  wait_result_well :
      (task_data run_data : Json)
      → Always (IsEnding spec body) (body ∷ []) (wait_result w h spec task_data run_data)
  unfolding wait_result
  wait_result_well task_data run_data =
      try_well spec body (body ∷ []) (get_item run_data "result-href") _ (inr refl) λ href r.
        reply_well spec body (body ∷ []) r _ (inr refl) λ status result_data.
          if_well spec body (body ∷ []) (not (status == 200 || status == 404)) _ _
            (fails_well spec body (body ∷ []) _ (inr refl))
            (try_well spec body (body ∷ []) (get_item task_data "detail") _ (inr refl) λ detail.
              try_well spec body (body ∷ []) (get_item detail "runs-href") _ (inr refl)
                λ runs_href r'. reply_well spec body (body ∷ []) r' _ (inr refl) λ status' runs.
                  if_well spec body (body ∷ []) (not (status' == 200)) _ _
                    (fails_well spec body (body ∷ []) _ (inr refl))
                    (try_well spec body (body ∷ []) (as_list runs) _ (inr refl)
                      λ list. fetch_runs_well runs list []))

  wait_end_well :
      (task_data run_data : Json)
      → Always (IsEnding spec body) (body ∷ []) (wait_end w h spec task_data run_data)
  unfolding wait_end
  wait_end_well task_data run_data =
      try_well spec body (body ∷ []) (get_item run_data "end-time") _ (inr refl) λ e.
        try_well spec body (body ∷ []) (as_text e) _ (inr refl) λ text.
          try_value_well spec body (body ∷ []) (w.as_datetime text) _ _ (inr refl)
            (λ ex. fails_well spec body (body ∷ []) _ (inr refl))
            λ end_time now. wait_result_well task_data run_data

  check_keys_well :
      (keys : List String) (run_data : Json) (rest : Script)
      → Always (IsEnding spec body) (body ∷ []) rest
      → Always (IsEnding spec body) (body ∷ []) (check_keys w h keys run_data rest)
  unfolding check_keys
  check_keys_well [] run_data rest k = k
  check_keys_well (key ∷ keys) run_data rest k =
      try_well spec body (body ∷ []) (has_member key run_data) _ (inr refl) λ there.
        if_well spec body (body ∷ []) there _ _ (check_keys_well keys run_data rest k)
          (fails_well spec body (body ∷ []) _ (inr refl))

  first_run_well :
      (task_data url : Json)
      → Always (IsEnding spec body) (body ∷ []) (first_run w h spec task_data url)
  unfolding first_run
  first_run_well task_data url = λ r.
      reply_well spec body (body ∷ []) r _ (inr refl) λ status run_data.
        if_well spec body (body ∷ []) (status == 404) _ _
          (fails_well spec body (body ∷ []) _ (inr refl))
          (if_well spec body (body ∷ []) (not (status == 200)) _ _
            (fails_well spec body (body ∷ []) _ (inr refl))
            (check_keys_well _ run_data _ (
              try_well spec body (body ∷ []) (get_item run_data "href") _ (inr refl)
                λ href. wait_end_well task_data run_data)))

  fetch_task_well : (r : Reply) → Always (IsEnding spec body) (body ∷ []) (fetch_task w h spec r)
  unfolding fetch_task
  fetch_task_well (threw e) = fails_well spec body (body ∷ []) _ (inr refl)
  fetch_task_well (answered status task_data) =
      if_well spec body (body ∷ []) (not (status == 200)) _ _
        (fails_well spec body (body ∷ []) _ (inr refl))
        (try_key_well spec body (body ∷ []) _ _ _ (inr refl)
          (fails_well spec body (body ∷ []) _ (inr refl)) (first_run_well task_data))

  -- From the post on: if the server took it or not, the body was sent.
  posted_well : (r : Reply) → Always (IsEnding spec body) (body ∷ []) (posted w h spec r)
  unfolding posted
  posted_well (threw e) = fails_well spec body (body ∷ []) _ (inr refl)
  posted_well (answered status task_url) = fetch_task_well

delayed_well :
    (P : List String → Result Json → Type 0) (sent : List String) (w : World) (h : Hosts) (n : ℕ)
    (s : Script)
    → Always P sent s
    → Always P sent (delayed w h n s)
unfolding delayed
delayed_well P sent w h zero s k = k
delayed_well P sent w h (suc n) s k = k

post_task_well :
    (w : World) (h : Hosts) (a : TaskArgs) (lead : Json)
    → Always (IsEnding a.spec (json_dump w a.spec)) [] (post_task w h a lead)
unfolding post_task
post_task_well w h a lead = delayed_well (IsEnding a.spec (json_dump w a.spec)) [] w h a.delay _ (
    try_well a.spec (json_dump w a.spec) [] (api_url h (lead_host w h lead) "/tasks" none) _
      (inl refl) λ tasks_url. posted_well w h a.spec (json_dump w a.spec))

wet_run-IsEnding :
    (w : World) (h : Hosts) (assist : String) (a : TaskArgs)
    → Always (IsEnding a.spec (json_dump w a.spec)) [] (run_task w h assist false a)
unfolding run_task
wet_run-IsEnding w h assist a =
    let body = json_dump w a.spec in
    try_well a.spec body [] (get_item a.spec "test") _ (inl refl) λ test.
      try_well a.spec body [] (get_item test "type") _ (inl refl) λ type.
        try_well a.spec body [] _ _ (inl refl) λ parts_url.
          try_well a.spec body [] (get_item test "spec") _ (inl refl) λ spec r.
            reply_well a.spec body [] r _ (inl refl) λ status participants.
              if_well a.spec body [] (not (status == 200)) _ _
                (fails_well a.spec body [] _ (inl refl))
                (try_well a.spec body [] (get_item participants "participants") _ (inl refl) λ list.
                  try_well a.spec body [] (first_of list) _ (inl refl) (post_task_well w h a))

-- Whatever the servers answer, a run of a task that is not a dry run posts nothing or posts the task
-- once. If it posts nothing it ends with an exception or a failure; if it returns and does not report
-- a failure, the task was posted and the result holds the task and a list of runs. A dry run posts
-- nothing and gives an empty dict.
pub run_task-IsEnding :
    (w : World) (h : Hosts) (assist : String) (dry_run : Bool) (a : TaskArgs)
    → Always
        (if dry_run then IsDry else IsEnding a.spec (json_dump w a.spec))
        []
        (run_task w h assist dry_run a)
unfolding run_task
run_task-IsEnding w h assist true a = (refl, refl)
run_task-IsEnding w h assist false a = wet_run-IsEnding w h assist a
