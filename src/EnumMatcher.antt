-- ===== src/EnumMatcher.antt =====
-- python-pscheduler/pscheduler/pscheduler/enummatcher.py.
use pscheduler.Common.{
  Bool, false, not, concat, every, some_of, none, some, List, [], ◌∷◌, Result, ok, err, value_error,
  ◌>>=◌, ◌>>◌, if◌then◌else◌,
}
use pscheduler.Json.{Json, arr, get, get_item, items, as_bool, as_list, as_dict}
use pscheduler.Json.Equality.{json_eq}
use pscheduler.World.{World}

pub record EnumMatcher : Type 0 where
  pub invert : Bool
  pub enum : List Json

valid_match : World → Json → Result (Unit {0})
valid_match w enum = elim (w.json_validate "EnumMatch" enum) [
  | none ↦ ok tt
  | some message ↦ err (value_error (concat ("Invalid match: " ∷ message ∷ [])))
]

unfoldable pub construct : World → Json → Result EnumMatcher
unfolding valid_match
construct w enum = do
  valid_match w enum
  m ← as_dict enum
  invert ← elim (get "invert" m) [ none ↦ ok false | some v ↦ as_bool v ]
  e ← get_item enum "enumeration"
  allowed ← as_list e
  ok (record { invert = invert; enum = allowed })

-- `v in vs`.
unfoldable pub is_member : List Json → Json → Bool
is_member vs v = some_of (λ w. json_eq w v) vs

-- A single item stands for a list of it.
abbrev pub elements : Json → List Json
elements (arr vs) = items vs
elements v = v ∷ []

unfoldable pub contains : EnumMatcher → Json → Bool
contains m enum =
    let result = every (is_member m.enum) (elements enum) in if m.invert then not result else result
