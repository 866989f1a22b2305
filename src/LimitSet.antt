-- ===== src/LimitSet.antt =====
-- `LimitSet` of python-pscheduler/pscheduler/pscheduler/limitprocessor/limitset.py: building the
-- set from the limit file's list, clones included, and checking a proposal against one limit.
pub mod Build
pub mod Check
pub mod Clones
use pscheduler.Common.{
  String, Bool, true, false, not, ◌&&◌, concat, Option, none, some, List, [], ◌∷◌, ◌++◌, Result, ok,
  err, key_error, Error, value_error, ◌>>=◌, ◌>>◌, guard, or_raise, lookup, has_key, if◌then◌else◌,
}
use pscheduler.Json.{Json, obj, Fields, get, get_item, as_text, as_bool, as_dict}
use pscheduler.MergeDicts.{merge_dicts}
use pscheduler.World.{World}
use pscheduler.Proposal.{Proposal, Evaluated, passes}
use pscheduler.Limit
use pscheduler.Limit.{Evaluator}

-- An entry of `self.limits`: the keys that the code reads, and the evaluator that it adds.
pub record LimitEntry : Type 0 where
  pub name : String
  pub type : String
  pub config : Json
  pub invert : Option Bool
  pub evaluator : Evaluator

-- The dict of limits, by name, in the order of the file.
abbrev pub LimitSet : Type 0
LimitSet = List (String × LimitEntry)

-- The keys of a limit before it has an evaluator.
pub record LimitSpec : Type 0 where
  pub type : String
  pub config : Json
  pub invert : Option Bool

-- `limit["invert"]`, where the key is there.
invert_of : Fields → Result (Option Bool)
invert_of m = elim (get "invert" m) [ none ↦ ok none | some v ↦ do b ← as_bool v; ok (some b) ]

-- A limit with a type and data of its own.
unfoldable pub plain : Json → Fields → Result LimitSpec
unfolding invert_of
plain limit m = do
  t ← get_item limit "type"
  type ← as_text t
  config ← get_item limit "data"
  invert ← invert_of m
  ok (record { type = type; config = config; invert = invert })

-- A limit that clones an earlier one: the dict that the code builds has a name, a description, the
-- earlier limit's type and the merged data, and no other key.
unfoldable pub cloned : LimitSet → String → Json → Json → Result LimitSpec
cloned limits name limit source = do
  s ← as_text source
  l ← or_raise (lookup s limits) (
      value_error
        (concat ("Limit '" ∷ name ∷ "': Unable to clone undefined limit '" ∷ s ∷ "'" ∷ [])))
  description ← get_item limit "description"
  old ← as_dict l.config
  d ← get_item limit "data"
  new ← as_dict d
  ok (record { type = l.type; config = obj (merge_dicts old new); invert = none })

-- `'clone' in limit`.
unfoldable pub resolve : LimitSet → String → Json → Result LimitSpec
resolve limits name limit = do
  m ← as_dict limit
  elim (get "clone" m) [ none ↦ plain limit m | some source ↦ cloned limits name limit source ]

-- The exceptions of the loop.
abbrev pub duplicate : String → Error
duplicate name = value_error (concat ("Duplicate limit '" ∷ name ∷ "'" ∷ []))

abbrev pub unsupported : String → String → Error
unsupported name type =
    value_error (concat ("Limit '" ∷ name ∷ "' has unsupported type '" ∷ type ∷ "'" ∷ []))

-- One round of the constructor's loop.
unfoldable pub add : World → LimitSet → Json → Result LimitSet
add w limits limit = do
  n ← get_item limit "name"
  name ← as_text n
  guard (not (has_key name limits)) (duplicate name)
  spec ← resolve limits name limit
  creation ← or_raise (Limit.create w spec.type spec.config) (unsupported name spec.type)
  evaluator ← creation
  ok (
      limits
      ++ (
        name,
        record {
          name = name;
          type = spec.type;
          config = spec.config;
          invert = spec.invert;
          evaluator = evaluator;
        },
      )
        ∷ [])

unfoldable pub add_all : World → LimitSet → List Json → Result LimitSet
add_all w limits [] = ok limits
add_all w limits (limit ∷ fodder) = do more ← add w limits limit; add_all w more fodder

-- `LimitSet(fodder)`.
unfoldable pub construct : World → List Json → Result LimitSet
unfolding add_all
construct w fodder = add_all w [] fodder

-- `name in limits`.
unfoldable pub contains_limit : LimitSet → String → Bool
contains_limit limits name = has_key name limits

-- `self.limits[limit]["invert"]`, false if there is no such key.
abbrev pub inverts : LimitEntry → Bool
inverts l = elim l.invert [ none ↦ false | some b ↦ b ]

-- The evaluated result, turned round for an inverted limit.
unfoldable pub finish : Bool → Evaluated → Evaluated
finish invert e =
    if invert
    then (if e.passed
        then record e { passed = false; reasons = some ("Passed but inverted" ∷ []) }
        else record e { passed = true })
    else e

unfoldable pub check : World → LimitSet → Proposal → String → Bool → Result Evaluated
check w limits p limit check_schedule = do
  l ← or_raise (lookup limit limits) (value_error (concat ("Undefined limit '" ∷ limit ∷ "'" ∷ [])))
  if not check_schedule && Limit.checks_schedule l.evaluator
      then ok passes
      else do e ← Limit.evaluate w l.evaluator p; ok (finish (inverts l) e)
