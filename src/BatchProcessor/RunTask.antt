-- ===== src/BatchProcessor/RunTask.antt =====
-- `__run_task` of `BatchProcessor`: one task posted, waited for and its runs fetched, as a script of
-- what it asks of the world and of how it goes on for each answer.
pub mod Endings
pub mod Outcomes
use pscheduler.Common.{
  ℕ, zero, suc, ◌+◌, ◌-◌, String, Bool, true, false, not, ◌==◌, ◌||◌, ltb, concat, decimal, str_eq,
  Option, none, some, List, [], ◌∷◌, ◌++◌, Result, ok, err, Error, key_error, type_error,
  index_error, value_error, message, if◌then◌else◌, some_of, Ensures,
}
use pscheduler.Json.{
  Json, null, bool, num, str, arr, obj, Items, nil, cons, Fields, end, field, get, put, items,
  get_item, as_text, as_list, as_dict,
}
use pscheduler.World.{World, Moment}
use pscheduler.PsJson.{json_dump}
use pscheduler.JqFilter.{shown}
use pscheduler.StringMatcher.{is_in}
use pscheduler.Api.{Hosts, api_url, api_url_hostport}
use pscheduler.BatchProcessor.{TaskArgs, array}

-- A call of `url_get` or `url_post`.
pub data Call : Type 0 where
  url_get : (url params : Json) (json throw : Bool) → Call
  url_post : (url : String) (body : String) → Call

-- What comes of it: a status and what was read, or an exception.
pub data Reply : Type 0 where
  answered : (status : ℕ) → Json → Reply
  threw : Error → Reply

pub data Script : Type 0 where
  done : Result Json → Script
  http : Call → (Reply → Script) → Script
  sleep : ℕ → Script → Script
  time_now : (ℕ → Script) → Script

-- `__fail(message)`.
unfoldable pub fail : String → Json
fail text = obj (field "succeeded" (bool false) (field "error" (str text) end))

abbrev pub failed : List String → Script
failed text = done (ok (fail (concat text)))

-- An exception that nothing catches, or what follows.
unfoldable pub try : {A : Type 0} → Result A → (A → Script) → Script
try (err e) rest = done (err e)
try (ok a) rest = rest a

-- Likewise for a call.
unfoldable pub reply : Reply → (ℕ → Json → Script) → Script
reply (threw e) rest = done (err e)
reply (answered status v) rest = rest status v

-- `except KeyError`.
unfoldable pub try_key : Result Json → Script → (Json → Script) → Script
try_key (err (key_error k)) missing rest = missing
try_key (err e) missing rest = done (err e)
try_key (ok v) missing rest = rest v

-- `except ValueError as ex`.
unfoldable pub try_value : Result Moment → (String → Script) → (Moment → Script) → Script
try_value (err (value_error e)) handler rest = handler e
try_value (err e) handler rest = done (err e)
try_value (ok m) handler rest = rest m

-- `key in v`.
has_text : String → List Json → Bool
has_text key [] = false
has_text key (str s ∷ vs) = let rest = has_text key vs in str_eq s key || rest
has_text key (v ∷ vs) = has_text key vs

has_member : String → Json → Result Bool
unfolding has_text
has_member key (obj m) = ok (elim (get key m) [ none ↦ false | some v ↦ true ])
has_member key (str s) = ok (is_in key s)
has_member key (arr vs) = ok (has_text key (items vs))
has_member key v = err (type_error "argument is not iterable")

-- `list[0]`, where the code has a list.
first_of : Json → Result Json
first_of (arr (cons v vs)) = ok v
first_of (arr nil) = err (index_error "list index out of range")
first_of v = err (type_error "not a list")

module _ (w : World) (h : Hosts) where
  -- `run_set[text_format] = …` for each format, from the first left on.
  unfoldable pub fetch_formats : List String → Json → Fields → (Fields → Script) → Script
  fetch_formats [] href run_set rest = rest run_set
  fetch_formats (format ∷ formats) href run_set rest =
      http
        (url_get href (obj (field "format" (str format) end)) (str_eq format "application/json")
          false)
        λ r. reply r λ status text.
          fetch_formats formats href
            (if status == 200
              then put format text run_set
              else put format (fail (concat (decimal status ∷ ": " ∷ shown w text ∷ []))) run_set)
            rest

  -- `if "result-merged" in run_json`.
  unfoldable pub fetch_results : Option Json → Json → Fields → (Fields → Script) → Script
  fetch_results none href run_set rest = rest run_set
  fetch_results (some v) href run_set rest =
      fetch_formats ("application/json" ∷ "text/plain" ∷ "text/html" ∷ []) href run_set rest

  -- `for run in runs`, with the sets of the runs before.
  unfoldable pub fetch_runs : Json → Json → List Json → List Json → Script
  fetch_runs spec runs [] run_data =
      done (ok (obj (field "task" spec (field "runs" (arr (array run_data)) end))))
  fetch_runs spec runs (run ∷ more) run_data = http (url_get run null true true) λ r.
      reply r λ status run_json.
        if not (status == 200)
        then done (
            ok (
              arr (
                array (
                  obj (
                    field "application/json"
                      (fail (
                        concat ("Error " ∷ decimal status ∷ " getting runs: " ∷ shown w runs ∷ [])))
                      end)
                  ∷ []))))
        else try (get_item run_json "result-href") λ href. try (as_dict run_json) λ m.
          fetch_results (get "result-merged" m) href (field "application/json" run_json end)
            λ run_set. fetch_runs spec runs more (run_data ++ obj run_set ∷ [])

  -- From the wait for the result on.
  unfoldable pub wait_result : Json → Json → Json → Script
  wait_result spec task_data run_data = try (get_item run_data "result-href") λ href.
      http (url_get href (obj (field "wait-merged" (bool true) end)) true false) λ r.
        reply r λ status result_data.
          if not (status == 200 || status == 404)
          then failed ("Did not get a result: " ∷ shown w result_data ∷ [])
          else try (get_item task_data "detail") λ detail.
            try (get_item detail "runs-href") λ runs_href.
              http (url_get runs_href null true false) λ r'. reply r' λ status' runs.
                if not (status' == 200)
                then failed ("Error " ∷ decimal status' ∷ " getting runs: " ∷ shown w runs ∷ [])
                else try (as_list runs) λ list. fetch_runs spec runs list []

  -- The wait for the end of the first run.
  unfoldable pub wait_end : Json → Json → Json → Script
  wait_end spec task_data run_data = try (get_item run_data "end-time") λ e. try (as_text e) λ text.
      try_value (w.as_datetime text)
        (λ ex. failed ("Server did not return a valid end time for the task: " ∷ ex ∷ []))
        λ end_time. time_now λ now.
          sleep (if ltb now end_time.instant then end_time.instant - now else 0)
            (wait_result spec task_data run_data)

  -- The keys that run data must have, from the first left on: `in` looks into texts and lists too.
  unfoldable pub check_keys : List String → Json → Script → Script
  unfolding has_member
  check_keys [] run_data rest = rest
  check_keys (key ∷ keys) run_data rest = try (has_member key run_data) λ there.
      if there
      then check_keys keys run_data rest
      else failed ("Server did not return " ∷ key ∷ " with run data" ∷ [])

  -- The message on the first run's URL takes that key too, which is not among those checked.
  unfoldable pub first_run : Json → Json → Json → Script
  first_run spec task_data first_run_url = http (url_get first_run_url null true false) λ r.
      reply r λ status run_data.
        if status == 404
        then failed ("The server never scheduled a run for the task." ∷ [])
        else if not (status == 200)
        then failed ("Error " ∷ decimal status ∷ ": " ∷ shown w run_data ∷ [])
        else check_keys ("start-time" ∷ "end-time" ∷ "result-href" ∷ []) run_data
            (try (get_item run_data "href") λ href. wait_end spec task_data run_data)

  unfoldable pub fetch_task : Json → Reply → Script
  fetch_task spec (threw e) = failed ("Failed to get task data: " ∷ message e ∷ [])
  fetch_task spec (answered status task_data) =
      if not (status == 200)
      then failed ("Failed to get task data: " ∷ shown w task_data ∷ [])
      else try_key
          (elim (get_item task_data "detail") [
            | err e ↦ err e
            | ok d ↦ get_item d "first-run-href"
          ])
          (failed ("Server returned incomplete data." ∷ [])) (first_run spec task_data)

  unfoldable pub posted : Json → Reply → Script
  posted spec (threw e) = failed ("Failed to post task: " ∷ message e ∷ [])
  posted spec (answered status task_url) =
      http (url_get task_url (obj (field "detail" (bool true) end)) true false) (fetch_task spec)

  -- `if delay: time.sleep(delay)`.
  unfoldable pub delayed : ℕ → Script → Script
  delayed zero rest = rest
  delayed (suc n) rest = sleep (suc n) rest

  -- The lead participant: none is this host.
  lead_host : Json → Option String
  lead_host null = none
  lead_host v = some (shown w v)

  unfoldable pub post_task : TaskArgs → Json → Script
  unfolding lead_host
  post_task a lead = delayed a.delay (
      try (api_url h (lead_host lead) "/tasks" none)
        λ tasks_url. http (url_post tasks_url (json_dump w a.spec)) (posted a.spec))

  unfoldable pub run_task : (assist : String) → (dry_run : Bool) → TaskArgs → Script
  unfolding first_of
  run_task assist true a = done (ok (obj end))
  run_task assist false a = try (get_item a.spec "test") λ test. try (get_item test "type") λ type.
      try
        (api_url_hostport h (some assist)
          (concat ("/tests/" ∷ shown w type ∷ "/participants" ∷ [])))
        λ parts_url. try (get_item test "spec") λ spec.
          http
            (url_get (str parts_url) (obj (field "spec" (str (json_dump w spec)) end)) true false)
            λ r. reply r λ status participants.
              if not (status == 200)
              then failed ("Unable to determine the lead participant: " ∷ shown w participants ∷ [])
              else try (get_item participants "participants")
                  λ list. try (first_of list) (post_task a)
