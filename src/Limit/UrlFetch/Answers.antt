-- ===== src/Limit/UrlFetch/Answers.antt =====
-- Which answers of a server let a proposal pass, and which settings reach the server.
use pscheduler.Common.{
  ℕ, String, ◌≡◌, ◌∙◌, ap, sym, refl, Bool, true, false, Option, none, some, Result, ok, err, arith,
  ◌⊎◌, inl, inr, key_error, value_error, runtime_error, assertion_error, type_error, index_error,
  jq_error, name_error, url_error, Bool-cases, ==→eq, ◌==◌,
}
use pscheduler.Json.{Json, null, bool, num, str, arr, obj, Fields, end, get}
use pscheduler.PsJson.{json_load}
use pscheduler.World.{World}
use pscheduler.Proposal.{Proposal, Evaluated}
use pscheduler.JqFilter.{Filter}
use pscheduler.Limit.UrlFetch.{
  UrlFetch, passed_of, reasons_of, dict_verdict, json_verdict, response_verdict, transformed,
  request_url, request, evaluate, after_params, after_headers, after_url,
}

passed_of-true : (m : Fields) (b : Bool) → passed_of m ≡ some b → get "passed" m ≡ some (bool b)
unfolding passed_of
passed_of-true m b h = ground arith

-- The server's dict says so, and nothing else does, where failures do not pass.
dict_pass :
    (w : World) (text : String) (m : Fields)
    → (dict_verdict w false text m).passed ≡ true
    → get "passed" m ≡ some (bool true)
unfolding dict_verdict
dict_pass w text m h = ground (arith, passed_of-true m true)

json_pass :
    (w : World) (text : String) (r : Result Json) (v : Evaluated)
    → json_verdict w false text r ≡ ok v
    → v.passed ≡ true
    → (m : Fields) × (r ≡ ok (obj m)) × (get "passed" m ≡ some (bool true))
unfolding json_verdict
json_pass w text (ok (obj m)) v h e = (m, refl, dict_pass w text m (ground arith))
json_pass w text (ok null) v h e = ground arith
json_pass w text (ok (bool b)) v h e = ground arith
json_pass w text (ok (num n)) v h e = ground arith
json_pass w text (ok (str s)) v h e = ground arith
json_pass w text (ok (arr xs)) v h e = ground arith
json_pass w text (err (value_error s)) v h e = ground arith
json_pass w text (err (key_error s)) v h e = ground arith
json_pass w text (err (runtime_error s)) v h e = ground arith
json_pass w text (err (assertion_error s)) v h e = ground arith
json_pass w text (err (type_error s)) v h e = ground arith
json_pass w text (err (index_error s)) v h e = ground arith
json_pass w text (err (jq_error s)) v h e = ground arith
json_pass w text (err (name_error s)) v h e = ground arith
json_pass w text (err (url_error s)) v h e = ground arith

-- Where `fail-result` is false, a response lets a proposal pass only if its status is 200 and
-- either `success-only` is set or the text is a dict whose `passed` is true.
response_pass :
    (w : World) (l : UrlFetch) (url text : String) (status : ℕ) (v : Evaluated)
    → l.fail_result ≡ false
    → response_verdict w l url (status, text) ≡ ok v
    → v.passed ≡ true
    → (status ≡ 200)
      × ((l.success_only ≡ true)
          ⊎ (m : Fields) × (json_load w text ≡ ok (obj m)) × (get "passed" m ≡ some (bool true)))
unfolding response_verdict
response_pass w l url text status v f h e = elim (Bool-cases (status == 200)) [
  | inl s ↦ (
    ==→eq status 200 s,
    elim (Bool-cases l.success_only) [
      | inl o ↦ inl o
      | inr o ↦
          let inner : json_verdict w false text (json_load w text) ≡ ok v = ground arith in
          inr (json_pass w text (json_load w text) v inner e)
    ],
  )
  | inr n ↦ absurd (ground arith)
]

-- A refusal without a message: the answer has no reasons.
pub refusal_without_message :
    (w : World) (l : UrlFetch) (url text : String) (m : Fields)
    → l.success_only ≡ false
    → json_load w text ≡ ok (obj m)
    → get "passed" m ≡ some (bool false)
    → get "message" m ≡ none
    → response_verdict w l url (200, text)
      ≡ ok (record { passed = false; limit = none; reasons = none })
unfolding response_verdict json_verdict dict_verdict passed_of reasons_of
refusal_without_message w l url text m a b c d = ground arith

no_transform :
    (w : World) (name : String) (f : Option Filter) (configured : Json) (p : Proposal)
    → f ≡ none
    → transformed w name f configured p ≡ ok (obj end)
unfolding transformed
no_transform w name none configured p e = refl
no_transform w name (some f) configured p e = cc

-- What follows the URL, without transforms of the headers and the parameters.
untransformed :
    (w : World) (l : UrlFetch) (p : Proposal) (url : String)
    → l.headers_transform ≡ none
    → l.params_transform ≡ none
    → after_url w l p (ok url)
      ≡ response_verdict w l url (w.url_get (request l url (obj end) (obj end)))
unfolding after_url
untransformed w l p url a b =
    ap (after_headers w l p url) (no_transform w "headers" l.headers_transform l.headers p a)
    ∙ ap (after_params w l url (obj end)) (no_transform w "params" l.params_transform l.params p b)

other_settings :
    (w : World) (l : UrlFetch) (p : Proposal) (headers params : Json) (url : Result String)
    → l.headers_transform ≡ none
    → l.params_transform ≡ none
    → after_url w (record l { headers = headers; params = params }) p url ≡ after_url w l p url
unfolding response_verdict
other_settings w l p headers params (ok url) a b =
    untransformed w (record l { headers = headers; params = params }) p url a b
    ∙ sym (untransformed w l p url a b)
other_settings w l p headers params (err e) a b = unfold after_url in refl

-- Without the two transforms the headers and the parameters that the limit is configured with
-- change nothing: every answer is the same for any others.
settings_ignored :
    (w : World) (l : UrlFetch) (p : Proposal) (headers params : Json)
    → l.headers_transform ≡ none
    → l.params_transform ≡ none
    → evaluate w (record l { headers = headers; params = params }) p ≡ evaluate w l p
unfolding evaluate request_url
settings_ignored w l p headers params a b =
    other_settings w l p headers params (request_url w l p) a b

plain_url :
    (w : World) (l : UrlFetch) (p : Proposal)
    → l.url_transform ≡ none
    → request_url w l p ≡ ok l.url
unfolding request_url
plain_url w l p a = ground arith

-- Without transforms the configured URL is fetched, with no headers and no parameters.
pub evaluate_plain :
    (w : World) (l : UrlFetch) (p : Proposal)
    → l.url_transform ≡ none
    → l.headers_transform ≡ none
    → l.params_transform ≡ none
    → evaluate w l p ≡ response_verdict w l l.url (w.url_get (request l l.url (obj end) (obj end)))
unfolding evaluate request_url
evaluate_plain w l p a b c =
    ap (after_url w l p) (plain_url w l p a) ∙ untransformed w l p l.url b c
