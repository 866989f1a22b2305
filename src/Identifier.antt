-- ===== src/Identifier.antt =====
-- The classes of identifiers (python-pscheduler/pscheduler/pscheduler/limitprocessor/identifier/*.py)
-- as one data type: `identifier_creator` of identifierset.py by the type's name, and `evaluate`.
-- The five classes that ask the network or the host's interfaces are one case, answered by `World`.
pub mod CidrList
pub mod RawOutput
use pscheduler.Common.{
  ℕ, String, Bool, true, false, not, ◌&&◌, ◌||◌, concat, contains, str_eq, Option, none, some, List,
  [], ◌∷◌, Result, ok, err, key_error, type_error, value_error, ◌>>=◌, ◌>>◌, lookup, if◌then◌else◌,
}
use pscheduler.Json.{
  Json, bool, obj, Fields, end, field, get, get_item, as_text, as_list, as_bool, as_dict,
}
use pscheduler.World.{World, Network}
use pscheduler.Proposal.{Hints, hints_json, check_data}
use pscheduler.JqFilter
use pscheduler.JqFilter.{Filter, run}
use pscheduler.Limit.Jq.{get_or_empty}
use pscheduler.StringMatcher
use pscheduler.StringMatcher.{StringMatcher}

pub data Evaluator : Type 0 where
  always : Evaluator
  hint : String → StringMatcher → Evaluator
  jq : Filter → Evaluator
  cidr_list : List Network → Evaluator
  network : String → Json → Evaluator

-- always.py: the data is an empty dict.
construct_always : Json → Result Evaluator
construct_always (obj end) = ok always
construct_always v = err (value_error "Invalid data: Data is not an object or not empty.")

-- hint.py.
construct_hint : World → Json → Result Evaluator
construct_hint w data' = do
  check_data w "hint data_validator" data'
  h ← get_item data' "hint"
  name ← as_text h
  match ← get_item data' "match"
  matcher ← StringMatcher.construct w match
  ok (hint name matcher)

-- jq.py.
construct_jq : World → Json → Result Evaluator
construct_jq w data' = do
  check_data w "jq data_validator" data'
  script ← get_item data' "script"
  args ← get_or_empty "args" data'
  m ← as_dict data'
  raw ← elim (get "output-raw" m) [ none ↦ ok false | some v ↦ as_bool v ]
  f ← JqFilter.construct w script args raw false
  ok (jq f)

abbrev network_types : List String
network_types =
    "ip-cidr-list-url" ∷ "ip-cymru-bogon" ∷ "ip-reverse-dns" ∷ "localif" ∷ "local-subnet" ∷ []

-- `identifier_creator[id_type](data)`; `none` for a type that the table does not have.
unfoldable pub create : World → String → Json → Option (Result Evaluator)
unfolding construct_always construct_hint construct_jq
create w type data' =
    if str_eq type "always"
    then some (construct_always data')
    else if str_eq type "hint"
    then some (construct_hint w data')
    else if str_eq type "jq"
    then some (construct_jq w data')
    else if str_eq type "ip-cidr-list"
    then some (do cidrs ← CidrList.construct w data'; ok (cidr_list cidrs))
    else if contains network_types type
    then some (do w.network_identifier type data'; ok (network type data'))
    else none

-- `hints[name]`.
unfoldable pub hint_of : Option Hints → String → Result String
hint_of none name = err (type_error "'NoneType' object is not subscriptable")
hint_of (some m) name = elim (lookup name m) [ none ↦ err (key_error name) | some v ↦ ok v ]

-- `except KeyError: return False` around the look-up, and `k` for what follows it.
unfoldable pub with_hint : Result String → (String → Result Bool) → Result Bool
with_hint (ok value) k = k value
with_hint (err (key_error name)) k = ok false
with_hint (err e) k = err e

-- What the script's result says; any exception is no identification.
jq_verdict : Result Json → Bool
jq_verdict (ok (bool b)) = b
jq_verdict r = false

unfoldable pub evaluate : World → Evaluator → Option Hints → Result Bool
unfolding jq_verdict
evaluate w always hints = ok true
evaluate w (hint name matcher) hints =
    with_hint (hint_of hints name) (λ value. ok (StringMatcher.matches w matcher value))
evaluate w (jq f) hints = ok (jq_verdict (run w f (hints_json hints)))
evaluate w (cidr_list cidrs) hints =
    with_hint (hint_of hints "requester")
      (λ requester. do ip ← w.ip_network requester; ok (CidrList.listed cidrs ip))
evaluate w (network type data') hints = w.network_identified type data' hints
