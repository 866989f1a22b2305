-- ===== src/PsUrl.antt =====
-- python-pscheduler/pscheduler/pscheduler/psurl.py: requests through PycURL, whose transfer is a
-- function of `Transport`. The default of the argument `headers` of `url_post`, and that of
-- `url_put`, is one dict for all calls, which each call writes to: it is a state.
pub mod Statuses
pub mod ContentTypes
use pscheduler.Common.{
  ℕ, String, Bool, true, false, ◌||◌, ltb, ◌==◌, Option, none, some, List, [], ◌∷◌, map, Result, ok,
  err, url_error, str_eq, ◌>>=◌, has_key, if◌then◌else◌,
}
use pscheduler.Json.{Json, str, obj}
use pscheduler.World.{World}
use pscheduler.PsJson.{json_load, json_dump}
use pscheduler.JqFilter.{shown}

abbrev pub Dict : Type 0
Dict = List (String × String)

-- `d[key] = value`.
unfoldable pub put : String → String → Dict → Dict
put key value [] = (key, value) ∷ []
put key value ((k, v) ∷ d) =
    let rest = put key value d in if str_eq k key then (k, value) ∷ d else (k, v) ∷ rest

-- What is handed to PycURL.
pub record Transfer : Type 0 where
  pub method : String
  pub url : String
  pub params : Json
  pub headers : Dict
  pub body : Option Json

-- What it makes of it: a status and a text, or the message of its exception.
pub data Performed : Type 0 where
  answered : (status : ℕ) → String → Performed
  broken : String → Performed

abbrev pub Transport : Type 0
Transport = Transfer → Performed

-- What is read of a success.
unfoldable pub read_body : World → (json : Bool) → ℕ → String → Result (ℕ × Json)
read_body w true status text = do v ← json_load w text; ok (status, v)
read_body w false status text = ok (status, str text)

-- The end of `PycURLRunner.__call__`.
unfoldable pub concluded : World → (json throw : Bool) → ℕ → String → Result (ℕ × Json)
concluded w json throw status text =
    if ltb status 200 || ltb 299 status
    then (if throw then err (url_error text) else ok (status, str text))
    else read_body w json status text

-- The status 0 of what is no HTTP is a success, and an exception of PycURL the status 400.
unfoldable pub finished : World → Performed → (json throw : Bool) → Result (ℕ × Json)
finished w (answered status text) json throw =
    concluded w json throw (if status == 0 then 200 else status) text
finished w (broken message) json throw = concluded w json throw 400 message

-- `PycURLRunner.__call__`.
unfoldable pub runner : World → Transport → Transfer → (json throw : Bool) → Result (ℕ × Json)
runner w t transfer json throw = finished w (t transfer) json throw

unfoldable pub url_get :
    World → Transport → String → Json → Dict → (json throw : Bool) → Result (ℕ × Json)
url_get w t url params headers json throw =
    runner w t
      (record { method = "GET"; url = url; params = params; headers = headers; body = none }) json
      throw

-- The content type and the text that go by what the body is.
by_data : World → Json → String × Json
by_data w (obj m) = ("application/json", str (json_dump w (obj m)))
by_data w v = ("text/plain", str (shown w v))

-- `__content_type_data`: the content type that is asked for counts only if the headers have one, and
-- the body then goes to PycURL as it is.
unfoldable pub content_type_data : World → Option String → Dict → Json → String × Json
unfolding by_data
content_type_data w none headers body = by_data w body
content_type_data w (some content_type) headers body =
    if has_key "Content-Type" headers then (content_type, body) else by_data w body

-- The headers of a call: the dict that is the default, or one of the caller.
pub data Headers : Type 0 where
  default : Headers
  given : Dict → Headers

-- The two dicts that are defaults.
pub record Defaults : Type 0 where
  pub post : Dict
  pub put : Dict

-- What `url_post` and `url_put` send, with the headers as they are after it.
unfoldable pub sending : World → String → String → Json → Option String → Dict → Json → Transfer
sending w method url params content_type headers body =
    let (type, text) = content_type_data w content_type headers body in
    record {
      method = method;
      url = url;
      params = params;
      headers = put "Content-Type" type headers;
      body = some text;
    }

unfoldable pub url_post :
    World
    → Transport
    → Defaults
    → String
    → Json
    → Option String
    → Headers
    → Json
    → (json throw : Bool) → Defaults × Result (ℕ × Json)
url_post w t d url params content_type (given headers) body json throw =
    (d, runner w t (sending w "POST" url params content_type headers body) json throw)
url_post w t d url params content_type default body json throw =
    let transfer = sending w "POST" url params content_type d.post body in
    (record d { post = transfer.headers }, runner w t transfer json throw)

unfoldable pub url_put :
    World
    → Transport
    → Defaults
    → String
    → Json
    → Option String
    → Headers
    → Json
    → (json throw : Bool) → Defaults × Result (ℕ × Json)
url_put w t d url params content_type (given headers) body json throw =
    (d, runner w t (sending w "PUT" url params content_type headers body) json throw)
url_put w t d url params content_type default body json throw =
    let transfer = sending w "PUT" url params content_type d.put body in
    (record d { put = transfer.headers }, runner w t transfer json throw)

unfoldable pub url_delete :
    World → Transport → String → Json → Dict → (throw : Bool) → Result (ℕ × Json)
url_delete w t url params headers throw =
    runner w t
      (record { method = "DELETE"; url = url; params = params; headers = headers; body = none })
      false throw

-- `url_delete_list`.
unfoldable pub url_delete_list :
    World → Transport → List String → Json → Dict → Result (List (ℕ × Json))
url_delete_list w t [] params headers = ok []
url_delete_list w t (url ∷ urls) params headers = do
  r ← url_delete w t url params headers false
  rs ← url_delete_list w t urls params headers
  ok (r ∷ rs)
