-- ===== src/ApiServer/Tasks/Create/Reached.antt =====
-- A task that all participants take is enabled.
use pscheduler.Common.{
  ℕ, suc, ◌≡◌, refl, sym, String, Bool, true, false, not, ◌==◌, ◌||◌, concat, some, List, [], ◌∷◌,
  All, Result, ok,
}
use mathlib.Core.Path.{subst}
use pscheduler.Json.{Json, str, as_text, Fields}
use pscheduler.World.{World}
use pscheduler.Proposal.{Hints}
use pscheduler.LimitProcessor.{Judgement}
use pscheduler.Api.{Hosts, api_url_hostport}
use pscheduler.ApiServer.Script.{
  Query, Call, Script, Reply, rows, respond, raise, query, invoke, http, sleep, try, choose,
  fetched,
}
use pscheduler.ApiServer.Requests.{Request, Host}
use pscheduler.ApiServer.Tasks.Create.{
  task_one, task_others, enable, others_of, tasked, create, more_limits, uuid_of,
}
use pscheduler.ApiServer.Tasks.Create.Steps.{enables}

-- Whether a script enables a task, for what the database and the servers answer.
abbrev pub is_enabled : (Query → Reply) → (Call → Result (ℕ × Json)) → Script → Bool
is_enabled answers net (respond r) = false
is_enabled answers net (raise e) = false
is_enabled answers net (query q rest) = enables q || is_enabled answers net (rest (answers q))
is_enabled answers net (invoke c rest) = false
is_enabled answers net (http c rest) = is_enabled answers net (rest (net c))
is_enabled answers net (sleep n rest) = is_enabled answers net rest

-- A server takes what it is sent, and its details can be read for their limits.
abbrev pub Takes : Result (ℕ × Json) → Type 0
Takes reply =
    (v : Json) × (reply ≡ ok (200, v))
    × ((limits : List Json) → (more : List Json) × (more_limits v limits ≡ ok more))

-- A participant has a URL for a task.
abbrev pub HasUrl : Hosts → (uuid : String) → String → Type 0
HasUrl hosts uuid name =
    (url : String) × (api_url_hostport hosts (some name) (concat ("tasks/" ∷ uuid ∷ [])) ≡ ok url)

module _ (answers : Query → Reply) (net : Call → Result (ℕ × Json)) where
  try-is_enabled :
      {A : Type 0} (r : Result A) (rest : A → Script) (a : A)
      → r ≡ ok a
      → is_enabled answers net (rest a) ≡ true
      → is_enabled answers net (try r rest) ≡ true
  unfolding try
  try-is_enabled r rest a e h = subst (λ x. is_enabled answers net (try x rest) ≡ true) (sym e) h

  -- An answer of a server.
  reply-is_enabled :
      (reply : Result (ℕ × Json)) (v : Json) (s t : ℕ × Json → Script)
      → reply ≡ ok (200, v)
      → is_enabled answers net (t (200, v)) ≡ true
      → is_enabled answers net (try reply λ x. choose (not (x.0 == 200)) (s x) (t x)) ≡ true
  unfolding choose
  reply-is_enabled reply v s t e h = try-is_enabled reply _ (200, v) e h

  module _ (w : World) (h : Host) (hosts : Hosts) (r : Request) (uuid : String) (task : Fields)
      (takes : (c : Call) → Takes (net c)) where
    task_one-is_enabled :
        (n : ℕ) (part_name : String) (limits : List Json) (rest : List Json → Script)
        → HasUrl hosts uuid part_name
        → ((more : List Json) → is_enabled answers net (rest more) ≡ true)
        → is_enabled answers net (task_one w h hosts r uuid task n part_name limits rest) ≡ true
    unfolding task_one
    task_one-is_enabled n part_name limits rest (url, e) k =
        let (posted, here, readable) = takes _ in
        let (details, there, limits_of) = takes _ in
        let (more, found) = limits_of limits in
        try-is_enabled _ _ url e (
          reply-is_enabled _ posted _ _ here
            (reply-is_enabled _ details _ _ there (try-is_enabled _ rest more found (k more))))

    task_others-is_enabled :
        (n : ℕ) (others : List String) (limits : List Json) (rest : List Json → Script)
        → All (HasUrl hosts uuid) others
        → ((more : List Json) → is_enabled answers net (rest more) ≡ true)
        → is_enabled answers net (task_others w h hosts r uuid task n others limits rest) ≡ true
    unfolding task_others
    task_others-is_enabled n [] limits rest urls k = k limits
    task_others-is_enabled n (name ∷ others) limits rest (url, urls) k =
        task_one-is_enabled n name limits _ url
          λ more. task_others-is_enabled (suc n) others more rest urls k

-- The database does each statement, and says the UUID of a task that is posted.
abbrev pub Obeys : (Query → Reply) → (uuid : String) → Type 0
Obeys answers uuid = (q : Query) → answers q ≡ rows 1 ((str uuid ∷ []) ∷ [])

module _ (answers : Query → Reply) (net : Call → Result (ℕ × Json)) (uuid : String)
    (obeys : Obeys answers uuid) where
  fetched-is_enabled :
      (q : Query) (rest : ℕ × List (List Json) → Script)
      → is_enabled answers net (rest (1, (str uuid ∷ []) ∷ [])) ≡ true
      → is_enabled answers net (try (fetched (answers q)) rest) ≡ true
  unfolding fetched
  fetched-is_enabled q rest k =
      subst (λ x. is_enabled answers net (try (fetched x) rest) ≡ true) (sym (obeys q))
        (try-is_enabled answers net _ rest _ refl k)

  enable-is_enabled :
      (w : World) (r : Request) (limits : List Json)
      → is_enabled answers net (enable w r uuid limits) ≡ true
  unfolding enable
  enable-is_enabled w r limits = fetched-is_enabled _ _ refl

  tasked-is_enabled :
      (w : World) (h : Host) (hosts : Hosts) (r : Request) (limits : List Json)
      (participants : List String) (task : Fields) (reply : Reply)
      → reply ≡ rows 1 ((str uuid ∷ []) ∷ [])
      → ((c : Call) → Takes (net c))
      → All (HasUrl hosts uuid) (others_of participants)
      → is_enabled answers net (tasked w h hosts r limits participants task reply) ≡ true
  unfolding tasked uuid_of try as_text
  tasked-is_enabled w h hosts r limits participants task reply e takes urls =
      subst (λ x. is_enabled answers net (tasked w h hosts r limits participants task x) ≡ true)
        (sym e)
        (task_others-is_enabled answers net w h hosts r uuid _ takes 1 (others_of participants)
          limits _ urls (enable-is_enabled w r))

-- A task is enabled if the database does each statement, each participant but the first has a URL,
-- and the other servers answer each request with 200 and details whose limits can be read.
pub create-is_enabled :
    (answers : Query → Reply) (net : Call → Result (ℕ × Json)) (uuid : String) (w : World)
    (h : Host) (hosts : Hosts) (r : Request) (hints : Hints) (j : Judgement)
    (participants : List String) (task : Fields)
    → Obeys answers uuid
    → ((c : Call) → Takes (net c))
    → All (HasUrl hosts uuid) (others_of participants)
    → is_enabled answers net (create w h hosts r hints j participants task) ≡ true
unfolding create
create-is_enabled answers net uuid w h hosts r hints j participants task obeys takes urls =
    tasked-is_enabled answers net uuid obeys w h hosts r _ participants task _ (obeys _) takes urls
