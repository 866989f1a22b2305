-- ===== src/Samples/Requests.antt =====
-- Posts with the default headers, and pings.
use pscheduler.Common.{All, ◌↔◌, ok, ◌∷◌, false, ◌≡◌, refl, true, [], none, some}
use pscheduler.Json.{str}
use pscheduler.PsUrl.{Transport, answered, Defaults}
use pscheduler.World.{World}
use pscheduler.Api.{Hosts, api_url, host_per_rfc_2732, relative}
use pscheduler.PsJson.{json_load_schema, loaded, json_decomment}
use pscheduler.PsUrl.{url_get, runner, finished, concluded, read_body}
use pscheduler.Api.Pings.{
  api_ping, judged, interpreted, put_state, ping_into, api_ping_list, api_ping_all_up,
}
use pscheduler.Api.Pings.AllUp.{IsUp, api_ping_all_up-each}
use pscheduler.Samples.Worlds.{world}

abbrev accepting : Transport
accepting transfer = answered 200 "{}"

abbrev fresh : Defaults
fresh = record { post = []; put = [] }

abbrev reading : World
reading = record world { json_loads = λ s. ok (str s) }

abbrev hosts : Hosts
hosts = record { idna = some; is_ipv6 = λ s. false; hostname = some; port = λ s. none }

two_up : api_ping_all_up reading hosts accepting ("a" ∷ "b" ∷ []) ≡ ok true
unfolding api_ping_all_up api_ping_list ping_into api_ping api_url host_per_rfc_2732 relative
    url_get runner finished concluded read_body judged interpreted put_state json_load_schema loaded
    json_decomment
two_up = refl

api_ping_all_up-each_example :
    (api_ping_all_up reading hosts accepting ("a" ∷ "b" ∷ []) ≡ ok true)
    ↔ All (IsUp reading hosts accepting) ("a" ∷ "b" ∷ [])
api_ping_all_up-each_example = api_ping_all_up-each reading hosts accepting ("a" ∷ "b" ∷ [])
