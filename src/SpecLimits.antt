-- ===== src/SpecLimits.antt =====
-- The helpers of python-pscheduler/pscheduler/pscheduler/limits.py with which test plug-ins check a
-- field of a test's spec against a field of a limit. Each returns a list of errors.
pub mod Absent
pub mod Inverted
pub mod Endpoints
pub mod Numeric
use pscheduler.Common.{
  String, Bool, true, false, not, ◌&&◌, ◌||◌, concat, Option, none, some, List, [], ◌∷◌, Result, ok,
  err, key_error, ◌>>=◌, if◌then◌else◌,
}
use pscheduler.Json.{
  Json, bool, str, obj, end, field, get, get_item, as_text, as_bool, as_dict, as_list,
}
use pscheduler.Json.Equality.{json_eq}
use pscheduler.World.{World}
use pscheduler.JqFilter.{shown}
use pscheduler.StringMatcher
use pscheduler.EnumMatcher
use pscheduler.EnumMatcher.{is_member}
use pscheduler.DurationRange

-- The arguments that all of the helpers have. The names that default to `limit_field` are given.
pub record Subject : Type 0 where
  pub limit : Json
  pub spec : Json
  pub limit_field : String
  pub description : String
  pub spec_field : String

-- `except KeyError: pass`, where the list of errors is still empty.
abbrev pub unless_missing : Result (List String) → Result (List String)
unless_missing (err (key_error k)) = ok []
unless_missing r = r

-- `limit[limit_field].get("invert", False)`.
unfoldable pub invert_of : Json → Result Bool
invert_of l = do m ← as_dict l; elim (get "invert" m) [ none ↦ ok false | some v ↦ as_bool v ]

-- `limit[limit_field].get("fail-message", default)`.
unfoldable pub fail_message : Json → String → Result String
fail_message l default = do
  m ← as_dict l
  elim (get "fail-message" m) [ none ↦ ok default | some v ↦ as_text v ]

abbrev pub report : Bool → String → List String
report wrong message = if wrong then message ∷ [] else []

-- `"{1}".format(...)` of a message stub or None.
abbrev pub stub_text : Option String → String
stub_text none = "None"
stub_text (some s) = s

unfoldable pub duration_errors : World → Subject → Bool → Result (List String)
duration_errors w s convert_iso = do
  v ← get_item s.spec s.spec_field
  let spec_val = if convert_iso then str (concat ("PT" ∷ shown w v ∷ "S" ∷ [])) else v
  l ← get_item s.limit s.limit_field
  range ← get_item l "range"
  nrange ← DurationRange.construct w range
  invert ← invert_of l
  (contains, message) ← DurationRange.contains w nrange spec_val false
  let text = concat (s.description ∷ " " ∷ stub_text message ∷ [])
  ok (report (if invert then contains else not contains) text)

unfoldable pub check_duration_limit : World → Subject → Bool → Result (List String)
check_duration_limit w s convert_iso = unless_missing (duration_errors w s convert_iso)

unfoldable pub boolean_errors : Subject → Result (List String)
boolean_errors s = do
  l ← get_item s.limit s.limit_field
  limit_bool ← get_item l "match"
  m ← as_dict s.spec
  fail_msg ← fail_message l (concat (s.description ∷ " testing not allowed" ∷ []))
  ok (
      report
        (not (json_eq (elim (get s.spec_field m) [ none ↦ bool false | some v ↦ v ]) limit_bool))
        fail_msg)

unfoldable pub check_boolean_limit : Subject → Result (List String)
check_boolean_limit s = unless_missing (boolean_errors s)

unfoldable pub list_errors : Subject → Result (List String)
list_errors s = do
  v ← get_item s.spec s.spec_field
  l ← get_item s.limit s.limit_field
  a ← get_item l "match"
  allowed ← as_list a
  invert ← invert_of l
  message ← fail_message l (concat (s.description ∷ " not within limit" ∷ []))
  let contains = is_member allowed v
  ok (report (if invert then contains else not contains) message)

unfoldable pub check_numeric_list_limit : Subject → Result (List String)
check_numeric_list_limit s = unless_missing (list_errors s)

-- The value that is matched is that of the limit's field, not of the spec's.
unfoldable pub enum_errors : World → Subject → Result (List String)
enum_errors w s = do
  l ← get_item s.limit s.limit_field
  enumeration ← get_item l "enumeration"
  m ← as_dict l
  let invert : Json = elim (get "invert" m) [ none ↦ bool false | some v ↦ v ]
  matcher ←
      EnumMatcher.construct w (obj (field "enumeration" enumeration (field "invert" invert end)))
  v ← get_item s.spec s.spec_field
  fail_msg ← fail_message l (concat ("IPv" ∷ shown w v ∷ " is not allowed" ∷ []))
  matched ← get_item s.spec s.limit_field
  ok (
      report (not (EnumMatcher.contains matcher matched))
        (concat (s.description ∷ " " ∷ fail_msg ∷ [])))

unfoldable pub check_enum_limit : World → Subject → Result (List String)
check_enum_limit w s = unless_missing (enum_errors w s)

unfoldable pub string_errors : World → Subject → Result (List String)
string_errors w s = do
  l ← get_item s.limit s.limit_field
  m ← get_item l "match"
  match ← StringMatcher.construct w m
  invert ← invert_of l
  v ← get_item s.spec s.spec_field
  text ← as_text v
  let contains = StringMatcher.matches w match text
  message ← fail_message l (concat (s.description ∷ " does not match limit" ∷ []))
  ok (report (not contains || (invert && contains)) message)

unfoldable pub check_string_limit : World → Subject → Result (List String)
check_string_limit w s = unless_missing (string_errors w s)
