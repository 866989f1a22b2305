-- ===== src/Samples/Servers.antt =====
-- The API server: a limit file that is looked for again and again, the tools of two participants, a
-- task that is posted, and runs that are posted and awaited.
use pscheduler.Common.{
  String, ◌≡◌, refl, true, false, ◌≤◌, str_eq, Option, none, some, List, [], ◌∷◌, All, Result, ℕ,
  ok, if◌then◌else◌, arith,
}
use pscheduler.Json.{Json, str, get_item, pos, null, obj, end, field}
use pscheduler.LimitProcessor.{inert, Judgement, process}
use pscheduler.Api.{Hosts, api_url_hostport, api_url}
use pscheduler.ApiServer.Script.{Query, Reply, rows}
use pscheduler.ApiServer.Requests.{Request, Host, arg_integer, arg_boolean, uuid_is_valid}
use pscheduler.ApiServer.LimitProc.{LimitFile, LimitProc, initial, is_recent, update}
use pscheduler.ApiServer.LimitProc.Follows.{Call, run, noted, processor_of, AreDated, run-IsFresh}
use pscheduler.ApiServer.LimitProc.Restored.{restored_file_ignored}
use pscheduler.ApiServer.PickTool.{
  add_to, tally_list, tally_lists, common_of, insert, sorted, first_tool, pick,
}
use pscheduler.ApiServer.PickTool.Best.{Offers, AreDistinct, pick-least}
use pscheduler.ApiServer.PickTool.Tallies.{total_places}
use pscheduler.ApiServer.Script.Needs.{Needs}
use pscheduler.ApiServer.Tasks.{tasks_post}
use pscheduler.ApiServer.Tasks.Permitted.{HasPassed, tasks_post-HasPassed}
use pscheduler.ApiServer.Tasks.Create.{create}
use pscheduler.ApiServer.Tasks.Create.Steps.{Enables, AreTasked, create-Enables}
use pscheduler.ApiServer.Script
use pscheduler.ApiServer.Script.{task_hints_and_key, task_and_duration, run_exists}
use pscheduler.World.{World}
use pscheduler.ApiServer.Requests.{owner_of, access_write_task}
use pscheduler.Json.{bool, as_dict}
use pscheduler.PsJson.{json_load_schema, json_check_schema, json_decomment, loaded}
use pscheduler.Common.{starts_with}
use pscheduler.ApiServer.Tasks.Create.{more_limits}
use pscheduler.ApiServer.Tasks.Create.Reached.{is_enabled, Takes, HasUrl, create-is_enabled}
use pscheduler.ApiServer.Runs.Limits.{runs_post}
use pscheduler.ApiServer.Runs.Change.{run_put}
use pscheduler.ApiServer.Runs.Wait.{run_get}
use pscheduler.ApiServer.Runs.Outcome.{result_get}
use pscheduler.ApiServer.Runs.Times.{Waits, run_get-Waits}
use pscheduler.ApiServer.Runs.Twice.{spent, run_get-twice}
use pscheduler.ApiServer.Runs.Delays.{result_get-Waits}
use pscheduler.ApiServer.Runs.Judged.{Each, IsJudged, posts-Judge}
use pscheduler.ApiServer.Runs.Unready.{trail, unpack_failure, MayWrite, Asks, unready-fails}
use pscheduler.StringMatcher.{lower}
use pscheduler.Samples.Worlds.{world}

-- A limit file, and one that is newer.
abbrev first_file : LimitFile
first_file = record { modified = 1000; contents = ok "{}" }

abbrev newer_file : LimitFile
newer_file = record { modified = 2000; contents = ok "approve" }

-- Three looks at the file, the second too early.
abbrev looks : List Call
looks =
    record { now = 0; after = 10; file = some first_file }
    ∷ record { now = 20; after = 30; file = some newer_file }
    ∷ record { now = 20000000; after = 20000010; file = some newer_file }
    ∷ []

looks-AreDated : AreDated looks
looks-AreDated = (
  ((λ h. absurd (omega arith)), ((λ h. absurd (omega arith)), tt)),
  (((λ h. refl), tt), (tt, tt)),
)

run-IsFresh_example :
    (run world looks initial).processor ≡ processor_of world (noted world looks initial none)
run-IsFresh_example = run-IsFresh world looks looks-AreDated

-- A processor that has a file.
abbrev with_file : LimitProc
with_file = record {
  processor = none;
  file_exists = true;
  last_check = some 0;
  modified = some 1000;
  whynot = none;
}

abbrev restored : List Call
restored =
    record { now = 60000000; after = 60000010; file = some first_file }
    ∷ record { now = 90000000; after = 90000010; file = some first_file }
    ∷ []

restored_file_ignored_example :
    ((run world restored (update world 20000000 20000010 none with_file)).processor ≡ some inert)
    × ((j : Judgement) × (process world inert (record { task = null; hints = none }) true false
          ≡ ok j)
        × (j.passed ≡ true))
unfolding is_recent
restored_file_ignored_example =
    restored_file_ignored world 20000000 20000010 1000 with_file restored
      (record { task = null; hints = none }) true false refl refl refl
      (omega arith, (omega arith, tt))

-- The tools of two participants.
abbrev here : Option (List String)
here = some ("owping" ∷ "twping" ∷ "ping" ∷ [])

abbrev there : Option (List String)
there = some ("twping" ∷ "iperf3" ∷ "owping" ∷ [])

tools_differ : All AreDistinct (here ∷ there ∷ [])
tools_differ = ((refl, (refl, (refl, tt))), ((refl, (refl, (refl, tt))), tt))

picked : pick (here ∷ there ∷ []) none ≡ some "twping"
unfolding pick tally_lists tally_list add_to common_of sorted insert first_tool
picked = refl

pick-least_example :
    (tool : String) × (pick (here ∷ there ∷ []) none ≡ some tool)
    × All (Offers tool) (here ∷ there ∷ [])
    × ((other : String)
        → All (Offers other) (here ∷ there ∷ [])
        → total_places tool (here ∷ there ∷ []) ≤ total_places other (here ∷ there ∷ []))
pick-least_example = pick-least here (there ∷ []) "owping" tools_differ (refl, (refl, tt))

-- A host that knows one address, a request from elsewhere, and one that waits.
abbrev host : Host
host = record {
  is_local = λ s. str_eq s "127.0.0.1";
  is_address = λ s. true;
  int = λ s. some (pos 3);
  uuid = λ s. if str_eq s "first" then none else some s;
  crontab = λ s. true;
  has_interface = λ s. true;
  netloc = λ s. "here";
  last_in_path = λ s. "1";
  without_netloc = λ s. s;
  beside = λ url name. name;
  iso_datetime = λ s. s;
  iso_duration = λ v. "PT1M";
}

abbrev request : Request
request = record {
  url = "https://here/pscheduler/tasks";
  base_url = "https://here/pscheduler/tasks";
  url_root = "https://here/pscheduler/";
  remote_addr = "127.0.0.1";
  environ = [];
  requester = none;
  args = [];
  data' = "approve";
}

abbrev waiting : Request
waiting = record request { args = ("wait", "3") ∷ ("wait-merged", "") ∷ [] }

abbrev hosts : Hosts
hosts = record { idna = some; is_ipv6 = λ s. false; hostname = some; port = λ s. none }

tasks_post-HasPassed_example :
    Needs
      (HasPassed world (some inert) "approve")
      (tasks_post world host hosts request (some inert))
tasks_post-HasPassed_example = tasks_post-HasPassed world host hosts request (some inert)

abbrev passed : Judgement
passed = record { passed = true; limits = []; diags = ""; task = none; priority = none }

create-Enables_example :
    Enables
      (AreTasked hosts ("here" ∷ "there" ∷ "elsewhere" ∷ []) (field "test" (obj end) end))
      []
      []
      (create world host hosts request [] passed
        ("here" ∷ "there" ∷ "elsewhere" ∷ [])
        (field "test" (obj end) end))
create-Enables_example =
    create-Enables world host hosts request [] passed ("here" ∷ "there" ∷ "elsewhere" ∷ [])
      (field "test" (obj end) end)

-- Servers that take each task and say nothing of limits, and a database that does what it is asked.
abbrev willing : Script.Call → Result (ℕ × Json)
willing c = ok (200, obj end)

abbrev obedient : Query → Reply
obedient q = rows 1 ((str "1" ∷ []) ∷ [])

willing-Takes : (c : Script.Call) → Takes (willing c)
unfolding more_limits get_item
willing-Takes c = (obj end, refl, λ limits. (limits, refl))

others_have_urls : All (HasUrl hosts "1") ("there" ∷ "elsewhere" ∷ [])
unfolding api_url_hostport api_url
others_have_urls = ((_, refl), ((_, refl), tt))

create-is_enabled_example :
    is_enabled obedient willing (
      create world host hosts request [] passed
        ("here" ∷ "there" ∷ "elsewhere" ∷ [])
        (field "test" (obj end) end))
    ≡ true
create-is_enabled_example =
    create-is_enabled obedient willing "1" world host hosts request [] passed
      ("here" ∷ "there" ∷ "elsewhere" ∷ []) (field "test" (obj end) end) (λ q. refl) willing-Takes
      others_have_urls

posts-Judge_example :
    Each (IsJudged world host (some inert)) (runs_post world host request (some inert) "1")
    × Each (IsJudged world host (some inert)) (run_put world host request (some inert) "1" "2")
posts-Judge_example = posts-Judge world host request (some inert) "1" "2"

-- A database that has nothing.
abbrev nothing : Query → Reply
nothing q = rows 0 []

-- A body that says a time, and a database that has a task and no run.
abbrev timed : Json
timed = obj (field "start-time" (str "2020") end)

abbrev timed_world : World
timed_world = record world { json_loads = λ s. ok timed }

abbrev one_task : Query → Reply
one_task (task_hints_and_key task) =
    rows 1 ((obj (field "requester" (str "10.0.0.1") end) ∷ null ∷ []) ∷ [])
one_task (run_exists task run) = rows 1 ((bool false ∷ []) ∷ [])
one_task q = rows 1 ((obj end ∷ null ∷ obj end ∷ []) ∷ [])

requester_may : MayWrite timed_world host request "1" one_task
unfolding owner_of access_write_task as_dict
requester_may = (_, (_, "10.0.0.1", none, refl, refl, refl))

timed-Asks : Asks timed_world host request "1" one_task timed "2020"
unfolding json_load_schema json_check_schema json_decomment get_item as_dict loaded starts_with
timed-Asks = (refl, (refl, (_, refl)))

unready-fails_example :
    (trail one_task (runs_post timed_world host request none "1")
      ≡ (task_hints_and_key "1" ∷ task_and_duration "1" ∷ [], some unpack_failure))
    × (trail one_task (run_put timed_world host request none "1" "2") ≡ (
      task_hints_and_key "1" ∷ run_exists "1" "2" ∷ task_and_duration "1" ∷ [],
      some unpack_failure,
    ))
unfolding uuid_is_valid
unready-fails_example =
    unready-fails timed_world host request "1" "2" one_task timed "2020" 1
      ((obj end ∷ null ∷ obj end ∷ []) ∷ []) refl refl requester_may timed-Asks refl refl

run_get-Waits_example : Waits 9000 (run_get world host waiting "1" "next")
unfolding arg_integer arg_boolean lower
run_get-Waits_example = run_get-Waits world host waiting "1" "next" (some (pos 3)) 3 refl refl

run_get-twice_example : spent nothing (run_get world host waiting "1" "next") ≡ (6000, some 404)
unfolding arg_integer arg_boolean uuid_is_valid lower
run_get-twice_example =
    run_get-twice world host waiting "1" "next" nothing (some (pos 3)) 3 refl refl refl refl refl
      refl

result_get-Waits_example : Waits 250 (result_get world host request "1" "2")
unfolding arg_boolean lower
result_get-Waits_example = result_get-Waits world host request "1" "2"
