-- ===== src/Samples/Worlds.antt =====
-- A world in which nothing outside fails: every schema accepts, a server refuses without a message.
use pscheduler.Common.{true, false, str_eq, none, [], ◌∷◌, ok, err, value_error, if◌then◌else◌, ◌+◌}
use pscheduler.Json.{Json, bool, obj, end, field}
use pscheduler.World.{World, Moment}

abbrev pub noon : Moment
noon = record {
  instant = 1000;
  year = 2020;
  month = 6;
  week = 23;
  weekday = 3;
  day = 3;
  hour = 12;
  minute = 0;
  second = 0;
}

abbrev pub refusal : Json
refusal = obj (field "passed" (bool false) end)

abbrev pub approval : Json
approval = obj (field "passed" (bool true) end)

abbrev pub world : World
world = record {
  json_validate = λ schema v. none;
  jq_compile = λ script. ok tt;
  jq_run = λ script v. ok (v ∷ []);
  groom = λ script. script;
  plugin_invoke = λ test operation input. record { returncode = 0; stdout = ""; stderr = "" };
  url_get = λ r. (200, r.url);
  to_text = λ v. "";
  json_dumps = λ v. "{}";
  json_loads = λ s.
      if str_eq s "refuse"
      then ok refusal
      else if str_eq s "approve"
      then ok approval
      else err (value_error "No JSON");
  as_datetime = λ s. ok noon;
  as_timedelta = λ s. ok 60;
  later = λ m d. record m { instant = m.instant + d };
  regex_error = λ s. none;
  regex_search = λ pattern s start. true;
  ip_network = λ s. ok (record { version = 4; first = 1; last = 1 });
  network_identifier = λ type v. ok tt;
  network_identified = λ type v hints. ok false;
}
