-- ===== src/ApplicationSet/Silence.antt =====
-- A limit that refuses without giving a reason.
use pscheduler.Common.{
  String, ◌≡◌, ◌∙◌, ap, refl, Bool, false, none, some, List, ◌∷◌, ok, err, key_error, lookup, arith,
}
use pscheduler.Json.{bool, obj, Fields, end, get}
use pscheduler.PsJson.{json_load}
use pscheduler.World.{World}
use pscheduler.Proposal.{Proposal, Evaluated}
use pscheduler.Limit
use pscheduler.Limit.{url_fetch}
use pscheduler.Limit.UrlFetch
use pscheduler.Limit.UrlFetch.{UrlFetch, request, response_verdict}
use pscheduler.Limit.UrlFetch.Answers.{refusal_without_message, evaluate_plain}
use pscheduler.LimitSet.{LimitSet, LimitEntry, inverts, finish, check}
use pscheduler.ApplicationSet.{Group, count_limit, tally, check_group}

module _ (w : World) (limits : LimitSet) (p : Proposal) (schedule : Bool) where
  silent_check :
      (name : String) (l : LimitEntry) (u : UrlFetch) (e : Evaluated)
      → lookup name limits ≡ some l
      → l.evaluator ≡ url_fetch u
      → inverts l ≡ false
      → UrlFetch.evaluate w u p ≡ ok e
      → check w limits p name schedule ≡ ok e
  unfolding check finish Limit.evaluate Limit.checks_schedule
  silent_check name l u e a b c d = ground arith

  silent_group :
      (g : Group) (name : String) (rest : List String) (e : Evaluated)
      → g.limits ≡ name ∷ rest
      → check w limits p name schedule ≡ ok e
      → e.passed ≡ false
      → e.reasons ≡ none
      → check_group w limits p schedule g ≡ err (key_error "reasons")
  unfolding check_group tally count_limit
  silent_group g name rest e a b c d = rw (a, b, c, d)

  -- Of a limit that is not inverted, fetches a URL without transforms and does not ask for success
  -- only, the server refuses a proposal with status 200 and a dict that has no message, which the
  -- limit's class takes for optional. Then the check of each group that begins with that limit raises
  -- a KeyError, whatever the group asks of its limits.
  pub refusal_without_message_raises :
      (g : Group) (name : String) (rest : List String) (l : LimitEntry) (u : UrlFetch)
      (text : String) (m : Fields)
      → g.limits ≡ name ∷ rest
      → lookup name limits ≡ some l
      → l.evaluator ≡ url_fetch u
      → inverts l ≡ false
      → u.url_transform ≡ none
      → u.headers_transform ≡ none
      → u.params_transform ≡ none
      → u.success_only ≡ false
      → w.url_get (request u u.url (obj end) (obj end)) ≡ (200, text)
      → json_load w text ≡ ok (obj m)
      → get "passed" m ≡ some (bool false)
      → get "message" m ≡ none
      → check_group w limits p schedule g ≡ err (key_error "reasons")
  refusal_without_message_raises g name rest l u text m hg hl hu hi t1 t2 t3 s fetched loaded no'
        quiet =
      silent_group g name rest (record { passed = false; limit = none; reasons = none }) hg
        (silent_check name l u _ hl hu hi (
          evaluate_plain w u p t1 t2 t3
          ∙ ap (response_verdict w u u.url) fetched
          ∙ refusal_without_message w u u.url text m s loaded no' quiet))
        refl refl
