-- ===== src/Samples/Addresses.antt =====
-- Limits on the ends of a test.
use pscheduler.Common.{
  ℕ, ◌≡◌, refl, true, false, ◌&&◌, ◌||◌, str_eq, none, some, [], ◌∷◌, ok, err, value_error,
  if◌then◌else◌,
}
use pscheduler.Json.{
  Json, str, arr, obj, nil, cons, Fields, end, field, get, get_item, as_text, as_list, as_dict,
}
use pscheduler.World.{Network}
use pscheduler.Limit.TestType.{texts}
use pscheduler.IpCidrMatcher
use pscheduler.IpCidrMatcher.{Net, IpCidrMatcher, contains, is_listed, within}
use pscheduler.SpecLimits.Endpoints.{
  ip_normalize_version, preferred, addresses, address_of, last_of, limits_ends, version_of,
  source_of, check_endpoint_limits, resolve_all, possible_versions,
}
use pscheduler.SpecLimits.Endpoints.Ends.{Reports, Says, Reads, check_endpoint_limits-Reports}
use pscheduler.Samples.Worlds.{world}

-- Two hosts with an address each, and a resolver that knows no third.
abbrev block : ℕ → ℕ → Network
block first last = record { version = 4; first = first; last = last }

abbrev net : Net
net = record {
  network = λ s.
      if str_eq s "10.0.0.1"
      then ok (block 1 1)
      else if str_eq s "10.0.0.9"
      then ok (block 9 9)
      else ok (block 0 7);
  address_version = λ s. some 4;
  getaddrinfo = λ s.
      if str_eq s "near"
      then ok ((4, "10.0.0.1") ∷ [])
      else if str_eq s "far"
      then ok ((4, "10.0.0.9") ∷ [])
      else err (value_error "Name or service not known");
  dns_resolve = λ s version. none;
}

-- One end must be among the first eight addresses.
abbrev near_only : Json
near_only = obj (field "cidr" (arr (cons (str "10.0.0.0/29") nil)) end)

abbrev limit : Fields
limit = field "endpoint" near_only end

abbrev spec : Fields
spec = field "source" (str "near") (field "dest" (str "far") end)

matcher :
    IpCidrMatcher.construct world near_only
    ≡ ok (record { invert = false; cidr = "10.0.0.0/29" ∷ [] })
unfolding IpCidrMatcher.construct as_dict get_item as_list texts as_text
matcher = refl

near_allowed : Says world net (get "endpoint" limit) "10.0.0.1" true
unfolding contains is_listed within
near_allowed = (record { invert = false; cidr = "10.0.0.0/29" ∷ [] }, matcher, refl)

far_refused : Says world net (get "endpoint" limit) "10.0.0.9" false
unfolding contains is_listed within
far_refused = (record { invert = false; cidr = "10.0.0.0/29" ∷ [] }, matcher, refl)

normalized : ip_normalize_version net "near" "far" none ≡ (some "10.0.0.1", some "10.0.0.9")
unfolding ip_normalize_version preferred addresses address_of last_of
normalized = refl

read_both : Reads world net limit spec none "far" (some "near")
unfolding limits_ends version_of source_of get_item as_text
read_both = (refl, refl, refl, refl)

check_endpoint_limits-Reports_example :
    Reports (check_endpoint_limits world net limit spec) (true && (true && (true || false)))
check_endpoint_limits-Reports_example =
    check_endpoint_limits-Reports world net limit spec none "far" "near" "10.0.0.1" "10.0.0.9" true
      true true false read_both normalized refl refl near_allowed far_refused

-- A destination alone, which has no address.
abbrev dest_limit : Fields
dest_limit = field "dest" near_only end

abbrev lost : Fields
lost = field "dest" (str "lost") end

read_lost : Reads world net dest_limit lost none "lost" none
unfolding limits_ends version_of source_of get_item as_text
read_lost = (refl, refl, refl, refl)

unknown : resolve_all net "lost" (possible_versions world net none) ≡ []
unfolding resolve_all possible_versions
unknown = refl
