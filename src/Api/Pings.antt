-- ===== src/Api/Pings.antt =====
-- `api_ping`, `api_ping_list` and `api_ping_all_up` of api.py. The threads of a list only make the
-- pings quicker: their results come in the order of the hosts.
pub mod AllUp
use pscheduler.Common.{
  ℕ, String, ◌≡◌, refl, Bool, true, false, ◌&&◌, ◌||◌, ◌==◌, leb, str_eq, has, concat, decimal,
  Option, none, some, List, [], ◌∷◌, All, Result, ok, err, value_error, ◌>>=◌, if◌then◌else◌,
}
use pscheduler.Json.{Json, null, str}
use pscheduler.World.{World}
use pscheduler.JqFilter.{shown}
use pscheduler.PsJson.{json_load}
use pscheduler.PsUrl.{Transport, url_get}
use pscheduler.Api.{Hosts, api_url}

abbrev pub Answer : Type 0
Answer = Bool × String

-- What comes back must be a JSON text.
unfoldable pub judged : Result Json → Result Answer
judged (ok (str s)) = ok (true, "pScheduler is alive")
judged (ok v) = ok (false, "Not running pScheduler")
judged (err (value_error s)) = ok (false, "Not running pScheduler")
judged (err e) = err e

-- The other statuses that say that there is no pScheduler.
abbrev foreign : List ℕ
foreign =
    202 ∷ 204 ∷ 205 ∷ 206 ∷ 207 ∷ 208 ∷ 226 ∷ 300 ∷ 301 ∷ 302 ∷ 303 ∷ 304 ∷ 205 ∷ 306 ∷ 307 ∷ 308
    ∷ []

unfoldable pub interpreted : World → ℕ × Json → Result Answer
interpreted w (status, result) =
    if status == 200
    then judged (json_load w (shown w result))
    else if status == 400
    then ok (false, shown w result)
    else if has foreign status || (leb 400 status && leb status 499)
    then ok (false, "Not running pScheduler")
    else ok (false, concat ("Returned status " ∷ decimal status ∷ ": " ∷ shown w result ∷ []))

unfoldable pub api_ping : World → Hosts → Transport → Option String → Result Answer
api_ping w h t host = do
  url ← api_url h host "" none
  answer ← url_get w t url null [] false false
  interpreted w answer

-- `result[host] = state`.
unfoldable pub put_state : String → Bool → List (String × Bool) → List (String × Bool)
put_state host state [] = (host, state) ∷ []
put_state host state ((k, v) ∷ result) =
    let rest = put_state host state result in
    if str_eq k host then (k, state) ∷ result else (k, v) ∷ rest

unfoldable pub ping_into :
    World → Hosts → Transport → List (String × Bool) → List String → Result (List (String × Bool))
ping_into w h t result [] = ok result
ping_into w h t result (host ∷ hosts) = do
  (up, reason) ← api_ping w h t (some host)
  ping_into w h t (put_state host up result) hosts

-- `api_ping_list(hosts)`.
unfoldable pub api_ping_list :
    World → Hosts → Transport → List String → Result (List (String × Bool))
api_ping_list w h t hosts = ping_into w h t [] hosts

abbrev pub all_up : List (String × Bool) → Bool
all_up [] = true
all_up ((host, up) ∷ rest) = up && all_up rest

-- `api_ping_all_up(hosts)`.
unfoldable pub api_ping_all_up : World → Hosts → Transport → List String → Result Bool
api_ping_all_up w h t hosts = do results ← api_ping_list w h t hosts; ok (all_up results)
