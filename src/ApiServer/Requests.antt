-- ===== src/ApiServer/Requests.antt =====
-- What the handlers read of a request: args.py, access.py, and the hints and keys of util.py.
use pscheduler.Common.{
  ℕ, zero, suc, String, Bool, true, false, not, ◌==◌, str_eq, contains, lookup, Option, none, some,
  List, [], ◌∷◌, ◌++◌, Result, ok, err, value_error, type_error, runtime_error, ◌>>=◌,
  if◌then◌else◌,
}
use Prim.Native.Char.{Char, code}
use pscheduler.Json.{Json, bool, str, get, ℤ, pos, as_dict}
use pscheduler.World.{World}
use pscheduler.StringMatcher.{lower}
use pscheduler.Proposal.{Hints}
use pscheduler.ApiServer.Script.{
  Script, Reply, query, auth_key_is_valid, task_hints_and_key, fetched, try, bad_request, forbidden,
  choose, given, not_found,
}

pub record Request : Type 0 where
  -- The request's URL, without its query, and the root of the server's.
  pub url : String
  pub base_url : String
  pub url_root : String
  pub remote_addr : String
  pub environ : List (String × String)
  -- The header X-pScheduler-Requester.
  pub requester : Option String
  pub args : List (String × String)
  pub data' : String

-- What libraries and the host say: addresses of the host, what is an IP address or block, `int` and
-- `uuid.UUID` of a text, the crontab parser, the interface of an address, and parts of URLs.
pub record Host : Type 0 where
  pub is_local : String → Bool
  pub is_address : String → Bool
  pub int : String → Option ℤ
  pub uuid : String → Option String
  pub crontab : String → Bool
  pub has_interface : String → Bool
  pub netloc : String → String
  pub last_in_path : String → String
  pub without_netloc : String → String
  pub beside : (url name : String) → String
  -- A datetime that a text says, and a duration of the database, in ISO 8601.
  pub iso_datetime : String → String
  pub iso_duration : Json → String

unfoldable pub arg_boolean : Request → String → Bool
arg_boolean r name = elim (lookup name r.args) [
  | none ↦ false
  | some argval ↦ contains ("" ∷ "true" ∷ "yes" ∷ "1" ∷ []) (lower argval)
]

-- A number of at least 1.
cardinal_of : Option ℤ → Result ℕ
cardinal_of (some (pos (suc n))) = ok (suc n)
cardinal_of n = err (value_error "Invalid cardinal; expecting integer > 0")

unfoldable pub arg_cardinal : Host → Request → String → Result (Option ℕ)
unfolding cardinal_of
arg_cardinal h r name = elim (lookup name r.args) [
  | none ↦ ok none
  | some argval ↦ do n ← cardinal_of (h.int argval); ok (some n)
]

unfoldable pub arg_integer : Host → Request → String → Result (Option ℤ)
arg_integer h r name = elim (lookup name r.args) [
  | none ↦ ok none
  | some argval ↦ elim (h.int argval) [
    | none ↦ err (value_error "Invalid integer.")
    | some n ↦ ok (some n)
  ]
]

-- The time, as it was given.
unfoldable pub arg_datetime : World → Request → String → Result (Option String)
arg_datetime w r name = elim (lookup name r.args) [
  | none ↦ ok none
  | some argval ↦ do m ← w.as_datetime argval; ok (some argval)
]

unfoldable pub uuid_is_valid : Host → String → Bool
uuid_is_valid h s = elim (h.uuid s) [ none ↦ false | some u ↦ true ]

-- `access_write_task(original_requester, key)`.
unfoldable pub access_write_task :
    Host → Request → (original_requester : String) → Option String → Bool
access_write_task h r original_requester key = if h.is_local r.remote_addr then true else elim key [
  | none ↦ str_eq r.remote_addr original_requester
  | some k ↦ elim (lookup "key" r.args) [ none ↦ false | some request_key ↦ str_eq request_key k ]
]

-- `text.split(';')`.
add_char : Char → List String → List String
add_char c [] = String.◌∷◌ c "" ∷ []
add_char c (part ∷ parts) = String.◌∷◌ c part ∷ parts

unfoldable pub split_fields : String → List String
unfolding add_char
split_fields String.[] = "" ∷ []
split_fields (String.◌∷◌ c s) =
    let rest = split_fields s in if code c == 59 then "" ∷ rest else add_char c rest

-- The first of the two variables that is set.
unfoldable pub server_hint : List (String × String) → Hints
server_hint environ = elim (lookup "SERVER_ADDR" environ) [
  | some value ↦ ("server", value) ∷ []
  | none ↦ elim (lookup "LOCAL_ADDR" environ) [ some value ↦ ("server", value) ∷ [] | none ↦ [] ]
]

abbrev pub invalid_header : Script
invalid_header = bad_request "Invalid X-pScheduler-Requester header"

-- Whether the database takes the key: one row that says so.
unfoldable pub key_answer : ℕ × List (List Json) → Result Bool
key_answer (suc zero, (bool b ∷ row) ∷ found) = ok b
key_answer (suc zero, found) = err (type_error "no boolean")
key_answer (n, found) = err (runtime_error "Didn't get expected single row from key validation")

-- The hints of a requester that is named in the header.
unfoldable pub proxied : Host → Request → List String → (Hints → Script) → Script
proxied h r (ip ∷ name ∷ key ∷ []) rest = choose (not (h.is_address ip)) invalid_header (
    query (auth_key_is_valid name key) λ reply.
      try (do found ← fetched reply; key_answer found)
        λ valid. choose (not valid) (forbidden "Requester proxying not allowed") (
          rest (
            server_hint r.environ
            ++ ("requester", ip) ∷ ("requester-proxied-by", r.remote_addr) ∷ [])))
proxied h r parts rest = invalid_header

-- `request_hints()`, and what follows if it gives hints.
unfoldable pub request_hints : Host → Request → (Hints → Script) → Script
request_hints h r rest =
    given r.requester (rest (server_hint r.environ ++ ("requester", r.remote_addr) ∷ []))
      λ header. proxied h r (split_fields header) rest

-- What `task_requester_key` makes of the rows: the requester and the key, if there are any.
abbrev pub Owner : Type 0
Owner = Option String × Option String

optional_text : Option Json → Option String
optional_text (some (str s)) = some s
optional_text v = none

unfoldable pub owner_of : ℕ × List (List Json) → Result Owner
unfolding optional_text
owner_of (zero, found) = ok (none, none)
owner_of (suc zero, (hints ∷ key ∷ row) ∷ found) = do
  m ← as_dict hints
  ok (optional_text (get "requester" m), optional_text (some key))
owner_of (n, found) = err (runtime_error "Didn't get expected single row")

-- The task's requester is asked for, and whether this one may write.
unfoldable pub admitted : Host → Request → Script → Reply → Script
admitted h r rest reply =
    try (do found ← fetched reply; owner_of found)
      λ owner. given owner.0 not_found λ requester.
        choose (not (access_write_task h r requester owner.1)) (forbidden "Forbidden.") rest

unfoldable pub with_access : Host → Request → (task : String) → Script → Script
with_access h r task rest = query (task_hints_and_key task) (admitted h r rest)
