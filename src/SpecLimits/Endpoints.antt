-- ===== src/SpecLimits/Endpoints.antt =====
-- `check_ip_limit` and `check_endpoint_limits` of limits.py, with what they use of
-- python-pscheduler/pscheduler/pscheduler/ipaddr.py. The fields' names are those of the defaults.
pub mod Ends
use pscheduler.Common.{
  ℕ, String, Bool, true, false, not, ◌&&◌, ◌||◌, ◌==◌, concat, Option, none, some, List, [], ◌∷◌,
  ◌++◌, Result, ok, err, index_error, runtime_error, ◌>>=◌, ◌>>◌, is_empty, ◌⊎◌, inl, inr,
  if◌then◌else◌,
}
use pscheduler.Json.{Json, null, num, pos, Fields, get, get_item, as_text, as_number, as_dict}
use pscheduler.World.{World}
use pscheduler.JqFilter.{shown}
use pscheduler.IpCidrMatcher
use pscheduler.IpCidrMatcher.{Net, IpCidrMatcher}

-- The last address of a version in what the resolver gives.
unfoldable pub last_of : ℕ → Option String → List (ℕ × String) → Option String
last_of version found [] = found
last_of version found ((v, ip) ∷ infos) =
    last_of version (if v == version then some ip else found) infos

-- `_get_ip_v4v6(addr)`: one of the pair. Every exception is passed over.
unfoldable pub address_of : Net → ℕ → String → Option String
address_of net version addr = elim (net.getaddrinfo addr) [
  | err e ↦ none
  | ok infos ↦ last_of version none infos
]

both : Option String → Option String → Bool
both (some a) (some b) = true
both a b = false

-- The addresses of both ends, of one version.
unfoldable pub addresses : Net → String → String → ℕ → Option String × Option String
addresses net src dest version = (address_of net version src, address_of net version dest)

-- Version 6 before version 4, if both ends have it.
unfoldable pub preferred : Net → String → String → Option String × Option String
unfolding both
preferred net src dest =
    let v6 = addresses net src dest 6 in
    let v4 = addresses net src dest 4 in
    if both v6.0 v6.1 then v6 else if both v4.0 v4.1 then v4 else (none, none)

-- `ip_normalize_version(src, dest, ip_version)`.
unfoldable pub ip_normalize_version :
    Net → String → String → Option ℕ → Option String × Option String
ip_normalize_version net src dest none = preferred net src dest
ip_normalize_version net src dest (some n) =
    if n == 6
    then addresses net src dest 6
    else if n == 4
    then addresses net src dest 4
    else preferred net src dest

-- The addresses of the versions that are possible.
unfoldable pub resolve_all : Net → String → List ℕ → List String
resolve_all net addr [] = []
resolve_all net addr (version ∷ versions) =
    let rest = resolve_all net addr versions in
    elim (net.dns_resolve addr version) [ none ↦ rest | some ip ↦ ip ∷ rest ]

abbrev pub mismatch : String → String
mismatch ip = concat (ip ∷ " is not in the allowed address range" ∷ [])

-- `for candidate_ip in all_ips`.
unfoldable pub mismatches : Net → IpCidrMatcher → List String → Result (List String)
mismatches net m [] = ok []
mismatches net m (ip ∷ ips) = do
  matched ← IpCidrMatcher.contains net m ip
  rest ← mismatches net m ips
  ok (if matched then rest else mismatch ip ∷ rest)

-- `check_ip_limit(limit, spec_addr, ip, possible_ip_versions)`. The format of the error for an
-- address that does not resolve asks for a second argument that is not there.
unfoldable pub check_ip_limit :
    World → Net → Json → String → Option String → List ℕ → Result (List String)
check_ip_limit w net limit spec_addr (some ip) versions = do
  matcher ← IpCidrMatcher.construct w limit
  mismatches net matcher (ip ∷ [])
check_ip_limit w net limit spec_addr none versions =
    let all_ips = resolve_all net spec_addr versions in
    if is_empty all_ips
    then err (index_error "tuple index out of range")
    else do matcher ← IpCidrMatcher.construct w limit; mismatches net matcher all_ips

-- Who talks to whom, once the addresses are known.
pub record Endpoints : Type 0 where
  pub source : Option String
  pub dest : String
  pub source_ip : Option String
  pub dest_ip : Option String
  pub versions : List ℕ

abbrev pub is_there : Option Json → Bool
is_there none = false
is_there (some v) = true

-- Whether the limit has a source, a destination or an endpoint.
unfoldable pub limits_ends : Fields → Bool
limits_ends limit =
    is_there (get "source" limit) || is_there (get "dest" limit) || is_there (get "endpoint" limit)

module _ (w : World) (net : Net) where
  unfoldable pub source_errors : Option Json → Endpoints → Result (List String)
  source_errors none e = ok []
  source_errors (some limit) e = elim e.source_ip [
    | none ↦ ok (
        "This test has a limit on the source field but the source was not specifed. You must specify a source to run this test"
        ∷ [])
    | some ip ↦
        check_ip_limit w net limit (elim e.source [ none ↦ "" | some s ↦ s ]) (some ip) e.versions
  ]

  unfoldable pub dest_errors : Option Json → Endpoints → Result (List String)
  dest_errors none e = ok []
  dest_errors (some limit) e = check_ip_limit w net limit e.dest e.dest_ip e.versions

  -- Whether the source is there and matches.
  unfoldable pub source_matches : Json → Endpoints → Result Bool
  source_matches limit e = elim e.source [
    | none ↦ ok false
    | some s ↦ do errors ← check_ip_limit w net limit s e.source_ip e.versions; ok (is_empty errors)
  ]

  unfoldable pub endpoint_errors : Option Json → Endpoints → Result (List String)
  endpoint_errors none e = ok []
  endpoint_errors (some limit) e = do
    matched ← source_matches limit e
    if matched then ok [] else do
      errors ← check_ip_limit w net limit e.dest e.dest_ip e.versions
      ok (
          if is_empty errors
          then []
          else "source nor dest matches the IP range set by endpoint limit" ∷ [])

  -- The three checks, and all of their errors.
  unfoldable pub check_ends : Fields → Endpoints → Result (List String)
  check_ends limit e = do
    a ← source_errors (get "source" limit) e
    b ← dest_errors (get "dest" limit) e
    c ← endpoint_errors (get "endpoint" limit) e
    ok (a ++ (b ++ c))

  -- The fields of the spec, none where they are null or not there.
  unfoldable pub version_of : Fields → Result (Option ℕ)
  version_of spec = elim (get "ip-version" spec) [
    | none ↦ ok none
    | some null ↦ ok none
    | some v ↦ do n ← as_number v; ok (some n)
  ]

  unfoldable pub source_of : Fields → Result (Option String)
  source_of spec = elim (get "source" spec) [
    | none ↦ ok none
    | some null ↦ ok none
    | some v ↦ do s ← as_text v; ok (some s)
  ]

  -- The versions to look for: one if it is known.
  unfoldable pub possible_versions : Option ℕ → List ℕ
  possible_versions none = 4 ∷ 6 ∷ []
  possible_versions (some n) = n ∷ []

  -- `ip_addr_version(dest_ip)[0]`, where the spec has no version. The address comes from the
  -- resolver, so that it is not resolved again.
  unfoldable pub known_version : Option ℕ → String → Option ℕ
  known_version (some n) dest_ip = some n
  known_version none dest_ip = net.address_version dest_ip

  -- A source and a destination of one version, or the error.
  unfoldable pub ends_of :
      Option ℕ → String → String → Option String × Option String → Endpoints ⊎ String
  unfolding possible_versions known_version
  ends_of version source dest (some source_ip, some dest_ip) = inl (record {
    source = some source;
    dest = dest;
    source_ip = some source_ip;
    dest_ip = some dest_ip;
    versions = possible_versions (known_version version dest_ip);
  })
  ends_of version source dest other = inr (
      concat (
        "source " ∷ source ∷ " and dest " ∷ dest
        ∷ " cannot be resolved to IP addresses of the same type" ∷ []))

  -- The ends of the test, or the error that stops the check.
  unfoldable pub resolved : Option ℕ → Option String → String → Endpoints ⊎ String
  unfolding possible_versions
  resolved version none dest = inl (record {
    source = none;
    dest = dest;
    source_ip = none;
    dest_ip = none;
    versions = possible_versions version;
  })
  resolved version (some source) dest =
      ends_of version source dest (ip_normalize_version net source dest version)

  unfoldable pub check_resolved : Fields → Endpoints ⊎ String → Result (List String)
  check_resolved limit (inl e) = check_ends limit e
  check_resolved limit (inr text) = ok (text ∷ [])

  -- `check_endpoint_limits(limit, spec)`.
  unfoldable pub check_endpoint_limits : Fields → Fields → Result (List String)
  check_endpoint_limits limit spec = if not (limits_ends limit) then ok [] else (do
    version ← version_of spec
    source ← source_of spec
    d ← get_item (Json.obj spec) "dest"
    dest ← as_text d
    check_resolved limit (resolved version source dest))
