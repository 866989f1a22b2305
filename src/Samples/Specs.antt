-- ===== src/Samples/Specs.antt =====
-- Fields of a spec against fields of a limit.
use pscheduler.Common.{String, ◌≡◌, refl, true, false, [], ok}
use pscheduler.Json.{
  Json, pos, num, bool, str, arr, obj, nil, cons, end, field, get_item, as_text, as_bool, as_list,
  as_dict,
}
use pscheduler.JqFilter.{shown}
use pscheduler.StringMatcher
use pscheduler.StringMatcher.{StringMatcher, lower}
use pscheduler.EnumMatcher
use pscheduler.EnumMatcher.{is_member}
use pscheduler.DurationRange
use pscheduler.DurationRange.{DurationRange}
use pscheduler.SpecLimits.{Subject, invert_of, fail_message, check_enum_limit, enum_errors}
use pscheduler.Samples.Worlds.{world}

abbrev subject : String → Json → String → Json → Subject
subject name limit spec_name value = record {
  limit = obj (field name limit end);
  spec = obj (field spec_name value end);
  limit_field = name;
  description = name;
  spec_field = spec_name;
}

abbrev unlimited : Subject
unlimited = record (subject "other" (obj end) "duration" (str "PT1M")) { limit_field = "duration" }

abbrev versions : Subject
versions =
    subject "ip-version" (obj (field "enumeration" (arr (cons (num (pos 4)) nil)) end)) "version"
      (num (pos 6))

unversioned : check_enum_limit world versions ≡ ok []
unfolding check_enum_limit enum_errors get_item as_dict as_list as_bool EnumMatcher.construct
    fail_message shown
unversioned = refl

abbrev udp : Subject
udp = subject "udp" (obj (field "match" (bool true) end)) "udp" (bool true)

abbrev bounds : Json
bounds = obj (field "lower" (str "PT10S") (field "upper" (str "PT1M") end))

abbrev inverted : Json
inverted = obj (field "range" bounds (field "invert" (bool true) end))

abbrev minute : DurationRange
minute = record { lower = 60; upper = 60; lower_str = "PT10S"; upper_str = "PT1M" }

duration_facts :
    (get_item (obj (field "duration" (str "PT30S") end)) "duration" ≡ ok (str "PT30S"))
    × (get_item (obj (field "duration" inverted end)) "duration" ≡ ok inverted)
    × (get_item inverted "range" ≡ ok bounds)
    × (DurationRange.construct world bounds ≡ ok minute)
    × (invert_of inverted ≡ ok true)
unfolding get_item DurationRange.construct as_text invert_of as_dict as_bool
duration_facts = (refl, refl, refl, refl, refl)

abbrev pattern' : Json
pattern' = obj (field "style" (str "exact") (field "match" (str "perfsonar") end))

abbrev comment : Json
comment = obj (field "match" pattern' (field "invert" (bool true) end))

abbrev exactly : StringMatcher
exactly = record {
  case_insensitive = false;
  invert = false;
  style = StringMatcher.exact;
  pattern = "perfsonar";
}

text_facts :
    (get_item (obj (field "comment" comment end)) "comment" ≡ ok comment)
    × (get_item comment "match" ≡ ok pattern')
    × (StringMatcher.construct world pattern' ≡ ok exactly)
    × (invert_of comment ≡ ok true)
    × (get_item (obj (field "comment" (str "other") end)) "comment" ≡ ok (str "other"))
    × (fail_message comment "comment does not match limit" ≡ ok "comment does not match limit")
unfolding get_item StringMatcher.construct as_text invert_of as_dict as_bool fail_message
text_facts = (refl, refl, refl, refl, refl, refl)
