-- ===== src/World.antt =====
-- What the program takes from code that it does not implement: the JSON Schema validator, the jq
-- library, the test plug-ins, HTTP, the JSON parser, and the parser of ISO 8601 dates with
-- Python's calendar. Each is a function, so one evaluation sees one answer to each question.
use pscheduler.Common.{ℕ, String, Bool, Option, List, Result}
use pscheduler.Json.{Json}

-- A `datetime`: its place on the time line in microseconds, by which datetimes are compared, and
-- the calendar fields of its own time zone. `week` is `isocalendar()[1]`, `weekday` is
-- `isoweekday()`.
pub record Moment : Type 0 where
  pub instant : ℕ
  pub year : ℕ
  pub month : ℕ
  pub week : ℕ
  pub weekday : ℕ
  pub day : ℕ
  pub hour : ℕ
  pub minute : ℕ
  pub second : ℕ

-- What `plugin_invoke` returns.
pub record PluginReply : Type 0 where
  pub returncode : ℕ
  pub stdout : String
  pub stderr : String

-- The arguments of a `url_get`. The timeout is in microseconds.
pub record Request : Type 0 where
  pub url : String
  pub bind : Json
  pub headers : Json
  pub params : Json
  pub timeout : ℕ
  pub allow_redirects : Bool
  pub verify_keys : Bool

-- An `ip_network`: its version, and its first and last addresses as numbers.
pub record Network : Type 0 where
  pub version : ℕ
  pub first : ℕ
  pub last : ℕ

pub record World : Type 0 where
  -- The message of `json_validate` for a value that fails the named schema.
  pub json_validate : String → Json → Option String
  -- `pyjq.compile` of a script, and all that the script gives for a value.
  pub jq_compile : String → Result (Unit {0})
  pub jq_run : String → Json → Result (List Json)
  -- `_groom`: the imports of a jq script moved to its top.
  pub groom : String → String
  -- A test's plug-in, the operation, and the JSON on its standard input.
  pub plugin_invoke : String → String → Json → PluginReply
  -- Status and text.
  pub url_get : Request → ℕ × String
  -- `str(v)` of a value that is no text.
  pub to_text : Json → String
  -- `json.dumps(v)` and `json.loads(s)`.
  pub json_dumps : Json → String
  pub json_loads : String → Result Json
  pub as_datetime : String → Result Moment
  -- A duration in microseconds.
  pub as_timedelta : String → Result ℕ
  -- A datetime plus a duration.
  pub later : Moment → ℕ → Moment
  -- The message of `re.compile` for a pattern that it refuses, and `pattern.search(text, pos)`.
  pub regex_error : String → Option String
  pub regex_search : String → String → ℕ → Bool
  pub ip_network : String → Result Network
  -- The identifier classes that ask the network or the host's interfaces: constructing one of a
  -- type, and its answer for a requester's hints.
  pub network_identifier : String → Json → Result (Unit {0})
  pub network_identified : String → Json → Option (List (String × String)) → Result Bool
