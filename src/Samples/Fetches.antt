-- ===== src/Samples/Fetches.antt =====
-- Limits that ask a URL, and the matching of texts.
use pscheduler.Common.{
  String, ◌≡◌, ◌≢◌, refl, true, false, none, [], ◌∷◌, ok, err, key_error, starts_with,
}
use pscheduler.Json.{str, get_item, as_text, as_bool, as_dict, null, bool, obj, Fields, end, field}
use pscheduler.Proposal.{Proposal, passes}
use pscheduler.Limit.{url_fetch}
use pscheduler.Limit.UrlFetch.{UrlFetch, response_verdict}
use pscheduler.LimitSet.{LimitSet, LimitEntry}
use pscheduler.ClassifierSet.{Requirement}
use pscheduler.ApplicationSet.{Group, check_group}
use pscheduler.ApplicationSet.Silence.{refusal_without_message_raises}
use pscheduler.StringMatcher
use pscheduler.StringMatcher.{StringMatcher, lower, matches}
use pscheduler.PsJson.{json_load, json_load_schema, loaded, json_decomment}
use pscheduler.Samples.Worlds.{world}

abbrev fetch : String → UrlFetch
fetch url = record {
  url = url;
  url_transform = none;
  bind = null;
  follow = true;
  timeout = 3000000;
  verify = true;
  fail_result = false;
  headers = obj end;
  headers_transform = none;
  params = obj end;
  params_transform = none;
  success_only = false;
}

abbrev proposal : Proposal
proposal = record { task = obj end; hints = none }

approved : response_verdict world (fetch "approve") "approve" (200, "approve") ≡ ok passes
unfolding response_verdict json_load_schema loaded json_decomment starts_with
approved = refl

abbrev limits : LimitSet
limits =
    (
      "remote",
      record {
        name = "remote";
        type = "url-fetch";
        config = obj end;
        invert = none;
        evaluator = url_fetch (fetch "refuse");
      },
    )
    ∷ []

abbrev group : Group
group = record { require = Requirement.any; limits = "remote" ∷ "other" ∷ [] }

abbrev remote : LimitEntry
remote = record {
  name = "remote";
  type = "url-fetch";
  config = obj end;
  invert = none;
  evaluator = url_fetch (fetch "refuse");
}

refused : json_load world "refuse" ≡ ok (obj (field "passed" (bool false) end))
unfolding json_load_schema loaded json_decomment starts_with
refused = refl

refusal_without_message_raises_example :
    check_group world limits proposal true group ≡ err (key_error "reasons")
refusal_without_message_raises_example =
    refusal_without_message_raises world limits proposal true group "remote" ("other" ∷ []) remote
      (fetch "refuse") "refuse" (field "passed" (bool false) end) refl refl refl refl refl refl refl
      refl refl refused refl refl

abbrev matcher : StringMatcher.Style → StringMatcher
matcher style = record {
  case_insensitive = true;
  invert = false;
  style = style;
  pattern = "perfsonar";
}

same_lower : lower "PerfSONAR" ≡ lower "perfsonar"
unfolding lower
same_lower = refl

not_regex : StringMatcher.exact ≢ StringMatcher.regex
not_regex e = cc

abbrev expression : Fields
expression =
    field "style" (str "regex")
      (field "match" (str "perfsonar") (field "case-insensitive" (bool true) end))

made : StringMatcher.construct world (obj expression) ≡ ok (matcher StringMatcher.regex)
unfolding StringMatcher.construct get_item as_text as_bool as_dict
made = refl
