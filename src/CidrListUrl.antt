-- ===== src/CidrListUrl.antt =====
-- `IdentifierIPCIDRListURL` of
-- python-pscheduler/pscheduler/pscheduler/limitprocessor/identifier/ipcidrlisturl.py: the state that
-- the lock protects, what an update makes of a server's answer, and the threads that call
-- `evaluate`. A radix tree is the list of the blocks added to it; times are in microseconds.
pub mod Lines
pub mod Threads
pub mod Answers
pub mod Whole
pub mod Exclusion
pub mod Release
use pscheduler.Common.{
  ℕ, ◌+◌, String, Bool, true, false, ◌||◌, ◌==◌, ltb, Option, none, some, List, [], ◌∷◌, ◌++◌,
  Result, ok, err, Error, value_error, key_error, concat, guard, ◌>>◌, jq_error, type_error, ◌>>=◌,
  lookup, length, if◌then◌else◌,
}
use pscheduler.Json.{Json, get, get_item, as_text, as_bool, as_list, as_dict}
use pscheduler.Proposal.{check_data}
use pscheduler.Limit.Jq.{get_or_empty}
use pscheduler.JqFilter
use pscheduler.World.{World}
use pscheduler.PsJson.{json_load}
use pscheduler.JqFilter.{Filter, Output, raw, many, call}
use pscheduler.CidrListUrl.Lines.{blocks}

-- What the constructor keeps. `accepts` says which texts the radix tree takes for blocks, and
-- `search_best` finds the best block of a tree for an address.
pub record Settings : Type 0 where
  pub update : ℕ
  pub retry : ℕ
  pub fail_state : Bool
  pub transform : Option Filter
  pub exclusions : List String
  pub accepts : String → Bool
  pub search_best : List String → String → Result (Option String)

-- The fields under `data_lock`.
pub record Shared : Type 0 where
  pub cidrs : List String
  pub length : ℕ
  pub next_attempt : ℕ
  pub updating : Bool

-- What the constructor sets before the first update.
abbrev pub fresh : Shared
fresh = record { cidrs = []; length = 0; next_attempt = 0; updating = false }

-- The first part of `__populate_cidrs__`: the state with the flag set, if it is time and nobody
-- updates.
unfoldable pub claim : (now : ℕ) → Shared → Option Shared
claim now s =
    if s.updating || ltb now s.next_attempt then none else some (record s { updating = true })

-- The `finally` of `__populate_cidrs__`.
unfoldable pub release : Shared → Shared
release s = record s { updating = false }

-- The text that a transform gives, raw output being a text.
raw_text : Output → Result String
raw_text (raw text) = ok text
raw_text (many vs) = err (type_error "not a text")

-- `except (ValueError, JQRuntimeError)`: the attempt has failed.
unless_failed : Result String → Result (Option String)
unless_failed (ok text) = ok (some text)
unless_failed (err (value_error e)) = ok none
unless_failed (err (jq_error e)) = ok none
unless_failed (err e) = err e

unfoldable pub transformed : World → Option Filter → String → Result (Option String)
unfolding raw_text unless_failed
transformed w none text = ok (some text)
transformed w (some f) text =
    unless_failed (do json ← json_load w text; output ← call w f json; raw_text output)

-- The blocks of an answer, none if the attempt has failed.
unfoldable pub fetched : World → Settings → ℕ × String → Result (Option (List String))
fetched w c (status, text) =
    if status == 200
    then (do
      new ← transformed w c.transform text
      ok (elim new [ none ↦ none | some t ↦ some (blocks c.accepts t) ]))
    else ok none

-- `__populate_cidrs_update__`: the state that it leaves, by the answer, the time right after it and
-- the time when the list is stored. An exception leaves the state alone.
unfoldable pub store : Settings → Result (Option (List String)) → (asked now : ℕ) → Shared → Shared
store c (err e) asked now s = s
store c (ok none) asked now s = record s { next_attempt = asked + c.retry }
store c (ok (some new)) asked now s = record s {
  cidrs = new;
  length = length new;
  next_attempt = now + c.update;
}

-- `except ValueError` of the first search.
searching : String → Result (Option String) → Result (Option String)
searching ip (err (value_error e)) = err (value_error (concat ("Invalid IP '" ∷ ip ∷ "'" ∷ [])))
searching ip r = r

-- The rest of `evaluate`, after `__populate_cidrs__`. It reads the length and the list without the
-- lock, so that each may be of another state.
unfoldable pub evaluate :
    Settings → (counted searched : Shared) → List (String × String) → Result Bool
unfolding searching
evaluate c counted searched hints =
    if counted.length == 0 then ok c.fail_state else elim (lookup "requester" hints) [
      | none ↦ ok false
      | some ip ↦ do
        prefix ← searching ip (c.search_best searched.cidrs ip)
        elim prefix [
          | none ↦ ok false
          | some p ↦ do
            excluded ← c.search_best c.exclusions ip
            ok (elim excluded [ none ↦ true | some q ↦ false ])
        ]
    ]

-- `self.exclusions.add(excl)` for each.
excluded_blocks : (String → Bool) → List Json → Result (List String)
excluded_blocks accepts [] = ok []
excluded_blocks accepts (v ∷ vs) = do
  excl ← as_text v
  guard (accepts excl) (value_error (concat ("Invalid IP or CIDR '" ∷ excl ∷ "'" ∷ [])))
  more ← excluded_blocks accepts vs
  ok (excl ∷ more)

-- `except KeyError`: there is no transform.
no_transform : Result Filter → Result (Option Filter)
no_transform (err (key_error k)) = ok none
no_transform (err e) = err e
no_transform (ok f) = ok (some f)

unfoldable pub transform_of : World → Json → Result (Option Filter)
unfolding no_transform
transform_of w data' = no_transform (do
  transform ← get_item data' "transform"
  script ← get_item transform "script"
  args ← get_or_empty "args" transform
  JqFilter.construct w script args true false)

-- The constructor, up to the first load of the list.
unfoldable pub construct :
    World
    → (String → Bool)
    → (List String → String → Result (Option String))
    → Json
    → Result Settings
unfolding excluded_blocks
construct w accepts search_best data' = do
  check_data w "ipcidrlisturl data_validator" data'
  m ← as_dict data'
  source ← get_item data' "source"
  u ← get_item data' "update"
  u_text ← as_text u
  update ← w.as_timedelta u_text
  r ← get_item data' "retry"
  r_text ← as_text r
  retry ← w.as_timedelta r_text
  fail_state ← elim (get "fail-state" m) [ none ↦ ok false | some v ↦ as_bool v ]
  transform ← transform_of w data'
  exclude ← elim (get "exclude" m) [ none ↦ ok [] | some v ↦ as_list v ]
  exclusions ← excluded_blocks accepts exclude
  ok (record {
    update = update;
    retry = retry;
    fail_state = fail_state;
    transform = transform;
    exclusions = exclusions;
    accepts = accepts;
    search_best = search_best;
  })
