-- ===== src/ApiServer/Tasks/Tools.antt =====
-- The participants of a task, and the tool that they have in common.
use pscheduler.Common.{
  ℕ, String, not, ◌==◌, ◌&&◌, ◌||◌, leb, has, str_eq, concat, join, decimal, Option, none, some,
  List, [], ◌∷◌, Result, ok, ◌>>=◌, if◌then◌else◌,
}
use pscheduler.Json.{
  Json, null, str, obj, Fields, field, end, get, put, get_item, as_text, as_list, as_dict,
}
use pscheduler.World.{World}
use pscheduler.PsJson.{json_load_schema, json_dump}
use pscheduler.JqFilter.{shown}
use pscheduler.Limit.TestType.{texts}
use pscheduler.Api.{Hosts, api_url_hostport}
use pscheduler.ApiServer.PickTool.{pick_tool}
use pscheduler.ApiServer.Script.{
  Script, invoke, http, Call, try, catch, error, no_can_do, choose, given,
}
use pscheduler.ApiServer.Script
use pscheduler.ApiServer.Requests.{Request, Host}
use pscheduler.ApiServer.Tasks.Validate.{test_of}

-- `host if host is not None else server_netloc()`.
unfoldable pub host_or_server : Host → Request → Json → Result String
host_or_server h r null = ok (h.netloc r.url_root)
host_or_server h r v = as_text v

unfoldable pub each_host : Host → Request → List Json → Result (List String)
each_host h r [] = ok []
each_host h r (v ∷ vs) = do host ← host_or_server h r v; rest ← each_host h r vs; ok (host ∷ rest)

unfoldable pub participants_of : World → Host → Request → String → Result (List String)
participants_of w h r stdout = do
  v ← json_load_schema w (some 1) stdout
  list ← get_item v "participants"
  vs ← as_list list
  each_host h r vs

unfoldable pub find_participants : World → Host → Request → Json → (List String → Script) → Script
find_participants w h r task rest =
    let fails = λ (text : String).
      error (concat ("Exception while determining participants: " ∷ text ∷ [])) in
    catch (test_of w task) fails λ test.
      invoke (record { kind = "test"; name = test.0; operation = "participants"; stdin = test.1 })
        λ reply. catch reply fails λ done.
          choose (not (done.returncode == 0))
            (error (concat ("Unable to determine participants: " ∷ done.stderr ∷ [])))
            (catch (participants_of w h r done.stdout) fails rest)

-- The statuses that say that there is no pScheduler.
abbrev foreign : List ℕ
foreign =
    202 ∷ 204 ∷ 205 ∷ 206 ∷ 207 ∷ 208 ∷ 226 ∷ 300 ∷ 301 ∷ 302 ∷ 303 ∷ 304 ∷ 205 ∷ 306 ∷ 307 ∷ 308
    ∷ []

-- The text of the TaskPostingException for an answer to a ping, if there is one.
unfoldable pub ping_failure : World → ℕ → Json → Option String
ping_failure w status result =
    if status == 400
    then some (shown w result)
    else if has foreign status || (leb 400 status && leb status 499)
    then some "Host is not running pScheduler"
    else if not (status == 200)
    then some (concat ("returned status " ∷ decimal status ∷ ": " ∷ shown w result ∷ []))
    else none

-- `raise TaskPostingException(text)`.
abbrev unusable : String → String → Script
unusable participant text =
    error (concat ("Error getting tools from " ∷ participant ∷ ": " ∷ text ∷ []))

module _ (w : World) (hosts : Hosts) (params : Json) where
  -- The tools of one participant.
  unfoldable pub ask_tools : String → (Json → Script) → Script
  ask_tools participant rest = try (api_url_hostport hosts (some participant) "") λ participant_api.
      http (Script.get participant_api null) λ ping. try ping λ pong.
        given (ping_failure w pong.0 pong.1)
          (http (Script.get (concat (participant_api ∷ "/tools" ∷ [])) params) λ reply.
            try reply λ answer.
              choose (not (answer.0 == 200))
                (unusable participant (concat (decimal answer.0 ∷ ": " ∷ shown w answer.1 ∷ [])))
                (rest answer.1))
          λ text. unusable participant text

  -- The tools of all, in the order of the participants.
  unfoldable pub ask_all : List String → (List (String × Json) → Script) → Script
  ask_all [] rest = rest []
  ask_all (participant ∷ participants) rest =
      ask_tools participant
        λ tools. ask_all participants λ offers. rest ((participant, tools) ∷ offers)

abbrev tools_only : List (String × Json) → List Json
tools_only [] = []
tools_only ((participant, tools) ∷ offers) = tools ∷ tools_only offers

-- The last offer of a participant, as a dict has it.
unfoldable pub offer_of : String → List (String × Json) → Option Json
offer_of participant [] = none
offer_of participant ((p, tools) ∷ offers) =
    let later = offer_of participant offers in
    elim later [ some t ↦ some t | none ↦ if str_eq p participant then some tools else none ]

names_of : List Json → Result (List String)
names_of [] = ok []
names_of (v ∷ vs) = do
  n ← get_item v "name"
  name ← as_text n
  names ← names_of vs
  ok (name ∷ names)

-- `offer_set`.
unfoldable pub offer_names : Option Json → Result (List String)
unfolding names_of
offer_names none = ok ("nothing" ∷ [])
offer_names (some null) = ok ("nothing" ∷ [])
offer_names (some v) = do vs ← as_list v; names_of vs

-- The texts of all offers.
unfoldable pub offer_texts : List (String × Json) → List String → Result (List String)
offer_texts offers [] = ok []
offer_texts offers (participant ∷ participants) = do
  names ← offer_names (offer_of participant offers)
  texts' ← offer_texts offers participants
  ok (concat (participant ∷ " offered " ∷ join ", " names ∷ []) ∷ texts')

-- `task['tools']`, if it is there.
unfoldable pub wished : Fields → Result (Option (List String))
wished m = elim (get "tools" m) [
  | none ↦ ok none
  | some v ↦ do vs ← as_list v; names ← texts vs; ok (some names)
]

-- The selection, and the task with its tool.
unfoldable pub select_tool : World → Host → Hosts → Json → List String → (Fields → Script) → Script
select_tool w h hosts task participants rest = try (get_item task "test") λ test.
    try (as_dict task) λ m.
      ask_all w hosts (obj (field "test" (str (json_dump w test)) end)) participants λ offers.
        try (do wish ← wished m; pick_tool (tools_only offers) wish)
          λ tool.
            given tool
              (try (offer_texts offers participants) λ lines. no_can_do (
                concat
                  ("No tool in common among the participants:  " ∷ join ";  " lines ∷ "." ∷ [])))
              λ name. rest (put "tool" (str name) m)
