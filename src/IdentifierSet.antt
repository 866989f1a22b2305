-- ===== src/IdentifierSet.antt =====
-- `IdentifierSet` of python-pscheduler/pscheduler/pscheduler/limitprocessor/identifierset.py.
pub mod Identities
use pscheduler.Common.{
  String, Bool, true, false, not, ◌&&◌, concat, contains, Option, none, some, List, [], ◌∷◌, ◌++◌,
  Result, ok, err, Error, value_error, ◌>>=◌, ◌>>◌, guard, or_raise, if◌then◌else◌, map,
}
use pscheduler.Json.{Json, get, get_item, as_text, as_bool, as_dict}
use pscheduler.World.{World}
use pscheduler.Proposal.{Hints}
use pscheduler.Identifier
use pscheduler.Identifier.{Evaluator}

-- An entry of `self.identifiers`: the keys that the code reads, and the evaluator that it adds.
pub record IdentifierEntry : Type 0 where
  pub name : String
  pub invert : Option Bool
  pub evaluator : Evaluator

-- The list, in the order of the file. The names are the keys of `self.seen`.
abbrev pub IdentifierSet : Type 0
IdentifierSet = List IdentifierEntry

abbrev pub names : IdentifierSet → List String
names [] = []
names (i ∷ is) = i.name ∷ names is

-- `name in identifiers`.
abbrev pub contains_name : IdentifierSet → String → Bool
contains_name is name = contains (names is) name

abbrev pub duplicate : String → Error
duplicate name = value_error (concat ("Duplicate identifier '" ∷ name ∷ "'" ∷ []))

abbrev pub unsupported : String → String → Error
unsupported name type =
    value_error (concat ("Identifier '" ∷ name ∷ "' has unsupported type '" ∷ type ∷ "'" ∷ []))

-- One round of the constructor's loop.
unfoldable pub add : World → IdentifierSet → Json → Result IdentifierSet
add w is identifier = do
  n ← get_item identifier "name"
  name ← as_text n
  guard (not (contains_name is name)) (duplicate name)
  t ← get_item identifier "type"
  type ← as_text t
  data' ← get_item identifier "data"
  creation ← or_raise (Identifier.create w type data') (unsupported name type)
  evaluator ← creation
  m ← as_dict identifier
  invert ← elim (get "invert" m) [ none ↦ ok none | some v ↦ do b ← as_bool v; ok (some b) ]
  ok (is ++ record { name = name; invert = invert; evaluator = evaluator } ∷ [])

unfoldable pub add_all : World → IdentifierSet → List Json → Result IdentifierSet
add_all w is [] = ok is
add_all w is (i ∷ fodder) = do more ← add w is i; add_all w more fodder

unfoldable pub construct : World → List Json → Result IdentifierSet
unfolding add_all
construct w fodder = add_all w [] fodder

-- `identifier['invert']`, false if there is no such key.
abbrev pub inverts : IdentifierEntry → Bool
inverts i = elim i.invert [ none ↦ false | some b ↦ b ]

-- The loop of `identities`.
unfoldable pub identities : World → IdentifierSet → Option Hints → Result (List String)
identities w [] hints = ok []
identities w (i ∷ is) hints = do
  identified ← Identifier.evaluate w i.evaluator hints
  rest ← identities w is hints
  ok (if identified && not (inverts i) then i.name ∷ rest else rest)
