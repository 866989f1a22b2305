-- ===== src/Limit/UrlFetch.antt =====
-- limitprocessor/limit/urlfetch.py: a limit that asks a URL.
pub mod Answers
use pscheduler.Common.{
  ℕ, String, Bool, true, false, not, ◌&&◌, concat, decimal, Option, none, some, List, [], ◌∷◌,
  Result, ok, err, value_error, type_error, key_error, ◌>>=◌, ◌>>◌, message, ◌==◌, if◌then◌else◌,
}
use pscheduler.Json.{
  Json, null, bool, num, str, arr, obj, Fields, end, field, get, get_item, as_text, as_bool,
  as_dict,
}
use pscheduler.PsJson.{json_load}
use pscheduler.World.{World, Request}
use pscheduler.Proposal.{Proposal, Evaluated, passes, check_data, hints_json}
use pscheduler.JqFilter
use pscheduler.JqFilter.{Filter, run}
use pscheduler.Limit.Jq.{script_text, get_or_empty}

abbrev pub private_key : String
private_key = "__URLFETCH_PRIVATE__"

pub record UrlFetch : Type 0 where
  pub url : String
  pub url_transform : Option Filter
  pub bind : Json
  pub follow : Bool
  pub timeout : ℕ
  pub verify : Bool
  pub fail_result : Bool
  pub headers : Json
  pub headers_transform : Option Filter
  pub params : Json
  pub params_transform : Option Filter
  pub success_only : Bool

-- `_jq_filter(data.get(key, None))`.
jq_filter : World → String → Fields → Result (Option Filter)
jq_filter w key m = elim (get key m) [
  | none ↦ ok none
  | some transform ↦ do
    script ← get_item transform "script"
    text ← script_text script
    args ← get_or_empty "args" transform
    f ←
        JqFilter.construct w
          (str (concat ("def hint($name): ." ∷ private_key ∷ ".hints[$name];" ∷ text ∷ []))) args
          false false
    ok (some f)
]

-- `data.get(key, default)` of a boolean.
flag : String → Bool → Fields → Result Bool
flag key default m = elim (get key m) [ none ↦ ok default | some v ↦ as_bool v ]

-- `data.get(key, default)` of any value.
value : String → Json → Fields → Json
value key default m = elim (get key m) [ none ↦ default | some v ↦ v ]

unfoldable pub construct : World → Json → Result UrlFetch
unfolding jq_filter flag value
construct w data' = do
  check_data w "DATA_VALIDATOR" data'
  m ← as_dict data'
  u ← get_item data' "url"
  url ← as_text u
  url_transform ← jq_filter w "url-transform" m
  follow ← flag "follow-redirects" true m
  t ← as_text (value "timeout" (str "PT3S") m)
  timeout ← w.as_timedelta t
  verify ← flag "verify-keys" true m
  fail_result ← flag "fail-result" false m
  headers_transform ← jq_filter w "headers-transform" m
  params_transform ← jq_filter w "params-transform" m
  success_only ← flag "success-only" false m
  ok (record {
    url = url;
    url_transform = url_transform;
    bind = value "bind" null m;
    follow = follow;
    timeout = timeout;
    verify = verify;
    fail_result = fail_result;
    headers = value "headers" (obj end) m;
    headers_transform = headers_transform;
    params = value "params" (obj end) m;
    params_transform = params_transform;
    success_only = success_only;
  })

-- The dict that a transform is run on: its subject, the task and the hints.
subject : String → Json → Proposal → Json
subject name v p = obj (
    field name v
      (field "run" p.task (field private_key (obj (field "hints" (hints_json p.hints) end)) end)))

-- `isinstance(url, str)`.
checked_url : Json → Result String
checked_url (str s) = ok s
checked_url v = err (value_error "Transform did not return a string")

-- The URL: the configured one, or the transform's result.
unfoldable pub request_url : World → UrlFetch → Proposal → Result String
unfolding checked_url subject
request_url w l p = elim l.url_transform [
  | none ↦ ok l.url
  | some f ↦ do v ← run w f (subject "url" (str l.url) p); checked_url v
]

-- The headers, and the parameters: what the transform returns, and none without a transform.
unfoldable pub transformed : World → String → Option Filter → Json → Proposal → Result Json
unfolding subject
transformed w name none configured p = ok (obj end)
transformed w name (some f) configured p = do
  v ← run w f (subject name configured p)
  get_or_empty name v

-- A result with a reason.
abbrev pub because : Bool → List String → Evaluated
because passed reason = record {
  passed = passed;
  limit = none;
  reasons = some (concat reason ∷ []);
}

-- `json["passed"]`, if it is there and a boolean.
passed_of : Fields → Option Bool
passed_of m = elim (get "passed" m) [ none ↦ none | some v ↦ elim v [ bool b ↦ some b | _ ↦ none ] ]

-- `str(json["message"])`.
text_of : World → Json → String
text_of w (str s) = s
text_of w v = w.to_text v

reasons_of : World → Fields → Option (List String)
unfolding text_of
reasons_of w m = elim (get "message" m) [ none ↦ none | some v ↦ some (text_of w v ∷ []) ]

-- What a dict from the server says.
unfoldable pub dict_verdict : World → Bool → String → Fields → Evaluated
unfolding reasons_of passed_of
dict_verdict w fail_result text m = elim (passed_of m) [
  | none ↦ because fail_result ("Server returned an invalid result '" ∷ text ∷ "'" ∷ [])
  | some passed ↦ record { passed = passed; limit = none; reasons = reasons_of w m }
]

-- The JSON that the server returned.
json_verdict : World → Bool → String → Result Json → Result Evaluated
json_verdict w fail_result text (err (value_error e)) =
    ok (because fail_result ("Server returned invalid JSON '" ∷ text ∷ "'" ∷ []))
json_verdict w fail_result text (err e) = err e
json_verdict w fail_result text (ok (obj m)) = ok (dict_verdict w fail_result text m)
json_verdict w fail_result text (ok v) =
    ok (because false ("Server returned an invalid result '" ∷ text ∷ "'" ∷ []))

-- From the status and the text of the fetch on.
unfoldable pub response_verdict : World → UrlFetch → String → ℕ × String → Result Evaluated
unfolding json_verdict dict_verdict
response_verdict w l url (status, text) =
    if l.success_only && (status == 200)
    then ok passes
    else if l.success_only && (status == 404)
    then ok (because false ("Resource not found" ∷ []))
    else if not (status == 200)
    then ok
        (because l.fail_result ("Fetch " ∷ url ∷ " failed: " ∷ decimal status ∷ ": " ∷ text ∷ []))
    else json_verdict w l.fail_result text (json_load w text)

abbrev pub request : UrlFetch → String → Json → Json → Request
request l url headers params = record {
  url = url;
  bind = l.bind;
  headers = headers;
  params = params;
  timeout = l.timeout;
  allow_redirects = l.follow;
  verify_keys = l.verify;
}

-- `except Exception as ex`, with the name of the transform that failed.
failed : UrlFetch → String → String → Evaluated
failed l name text = because l.fail_result (name ∷ " transform failed: " ∷ text ∷ [])

-- The three `try` blocks one after the other, and the fetch.
after_params : World → UrlFetch → String → Json → Result Json → Result Evaluated
unfolding failed
after_params w l url headers (err e) = ok (failed l "Parameter" (message e))
after_params w l url headers (ok params) =
    response_verdict w l url (w.url_get (request l url headers params))

after_headers : World → UrlFetch → Proposal → String → Result Json → Result Evaluated
unfolding failed after_params
after_headers w l p url (err e) = ok (failed l "Header" (message e))
after_headers w l p url (ok headers) =
    after_params w l url headers (transformed w "params" l.params_transform l.params p)

after_url : World → UrlFetch → Proposal → Result String → Result Evaluated
unfolding failed after_headers
after_url w l p (err e) = ok (failed l "URL" (message e))
after_url w l p (ok url) =
    after_headers w l p url (transformed w "headers" l.headers_transform l.headers p)

unfoldable pub evaluate : World → UrlFetch → Proposal → Result Evaluated
unfolding after_url
evaluate w l p = after_url w l p (request_url w l p)
