-- ===== src/IpCidrMatcher.antt =====
-- `IPCIDRMatcher` of python-pscheduler/pscheduler/pscheduler/ipcidrmatcher.py. netaddr's networks
-- and the resolver are functions of `Net`.
use pscheduler.Common.{
  ℕ, String, Bool, true, false, not, ◌&&◌, ◌==◌, leb, concat, Option, none, some, List, [], ◌∷◌,
  Result, ok, err, value_error, ◌>>=◌, ◌>>◌, if◌then◌else◌,
}
use pscheduler.Json.{Json, get, get_item, as_bool, as_list, as_dict}
use pscheduler.World.{World, Network}
use pscheduler.Limit.TestType.{texts}

pub record Net : Type 0 where
  -- `netaddr.IPNetwork(s)`.
  pub network : String → Result Network
  -- `netaddr.IPAddress(s).version`, none for the exceptions.
  pub address_version : String → Option ℕ
  -- `socket.getaddrinfo(s, None)`: version of the family and address of each entry, or the text of
  -- the exception.
  pub getaddrinfo : String → Result (List (ℕ × String))
  -- `dns_resolve(s, ip_version=n)`.
  pub dns_resolve : String → ℕ → Option String

pub record IpCidrMatcher : Type 0 where
  pub invert : Bool
  pub cidr : List String

unfoldable pub construct : World → Json → Result IpCidrMatcher
construct w match = do
  elim (w.json_validate "IPCIDRMatch" match) [
    | none ↦ ok tt
    | some message ↦ err (value_error (concat ("Invalid match: " ∷ message ∷ [])))
  ]
  m ← as_dict match
  invert ← elim (get "invert" m) [ none ↦ ok false | some v ↦ as_bool v ]
  c ← get_item match "cidr"
  cs ← as_list c
  cidr ← texts cs
  ok (record { invert = invert; cidr = cidr })

-- `a in b` for networks.
unfoldable pub within : Network → Network → Bool
within a b = a.version == b.version && leb b.first a.first && leb a.last b.last

-- The loop, which stops at the first block that holds the address.
unfoldable pub is_listed : Net → Network → List String → Result Bool
is_listed net address [] = ok false
is_listed net address (cidr ∷ cidrs) =
    let rest = is_listed net address cidrs in
    do block ← net.network cidr; if within address block then ok true else rest

unfoldable pub contains : Net → IpCidrMatcher → String → Result Bool
contains net m ip_address = do
  address ← net.network ip_address
  result ← is_listed net address m.cidr
  ok (if m.invert then not result else result)
