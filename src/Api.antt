-- ===== src/Api.antt =====
-- The URLs of python-pscheduler/pscheduler/pscheduler/api.py. What IDNA encodes, what is an IPv6
-- address and how `urllib` takes a host and a port apart are functions of `Hosts`.
pub mod Brackets
pub mod Kinds
pub mod Pings
use pscheduler.Common.{
  ℕ, String, Bool, ◌≡◌, refl, concat, decimal, Option, none, some, List, [], ◌∷◌, Result, ok, err,
  value_error, ◌>>=◌, if◌then◌else◌, ◌==◌, starts_with, str_eq,
}
use Prim.Native.Char.{code}
use Prim.Native.String

pub record Hosts : Type 0 where
  -- `host.encode('idna').decode("ascii")`, which may raise a UnicodeError.
  pub idna : String → Option String
  -- `socket.inet_pton(socket.AF_INET6, host)`.
  pub is_ipv6 : String → Bool
  -- Hostname and port of a URL.
  pub hostname : String → Option String
  pub port : String → Option ℕ

unfoldable pub host_per_rfc_2732 : Hosts → String → String
host_per_rfc_2732 h host = if h.is_ipv6 host then concat ("[" ∷ host ∷ "]" ∷ []) else host

-- `path[1:]` if the path starts with a slash.
unfoldable pub relative : String → String
relative String.[] = ""
relative (String.◌∷◌ c path) = if code c == 47 then path else String.◌∷◌ c path

-- `api_local_host()`, where there is no host.
host_or_local : Option String → String
host_or_local none = "localhost"
host_or_local (some host) = host

encoded_host : Hosts → String → Result String
encoded_host h name = elim (h.idna name) [
  | none ↦ err (value_error (concat ("Invalid host '" ∷ name ∷ "'" ∷ [])))
  | some s ↦ ok s
]

-- `api_url(host, path, port)`.
unfoldable pub api_url : Hosts → Option String → String → Option ℕ → Result String
unfolding host_or_local encoded_host
api_url h host path port = do
  encoded ← encoded_host h (host_or_local host)
  ok (
      concat (
        "https://"
        ∷ host_per_rfc_2732 h encoded
        ∷ elim port [ none ↦ "" | some n ↦ concat (":" ∷ decimal n ∷ []) ]
        ∷ "/pscheduler/"
        ∷ relative path
        ∷ []))

-- `api_host_port(hostport)`.
unfoldable pub api_host_port : Hosts → Option String → Option String × Option ℕ
api_host_port h none = (none, none)
api_host_port h (some hostport) =
    let url = concat ("bogus://" ∷ host_per_rfc_2732 h hostport ∷ []) in
    (
      elim (h.hostname url) [
        | none ↦ none
        | some name ↦ if str_eq name "none" then none else some name
      ],
      h.port url,
    )

-- `api_url_hostport(hostport, path)`.
unfoldable pub api_url_hostport : Hosts → Option String → String → Result String
api_url_hostport h hostport path =
    let (host, port) = api_host_port h hostport in api_url h host path port
