-- ===== src/ClassifierSet.antt =====
-- `ClassifierSet` of python-pscheduler/pscheduler/pscheduler/limitprocessor/classifierset.py.
pub mod Requirements
pub mod Build
use pscheduler.Common.{
  ℕ, String, Bool, true, false, not, concat, join, contains, str_eq, ◌==◌, ltb, length, filter_by,
  is_empty, Option, none, some, List, [], ◌∷◌, ◌++◌, Result, ok, err, Error, key_error, value_error,
  ◌>>=◌, ◌>>◌, guard, or_raise, has_key, if◌then◌else◌,
}
use pscheduler.Json.{Json, str, get, get_item, as_text, as_list, as_dict}
use pscheduler.Limit.TestType.{texts}
use pscheduler.IdentifierSet.{IdentifierSet, contains_name}

pub data Requirement : Type 0 where
  nothing one any all : Requirement

-- `require_tests[name]`.
unfoldable pub requirement_of : String → Option Requirement
requirement_of s =
    if str_eq s "none"
    then some nothing
    else if str_eq s "one"
    then some one
    else if str_eq s "any"
    then some any
    else if str_eq s "all"
    then some all
    else none

-- `require_tests`: the numbers of identifiers that were met, and of all that the classifier lists.
unfoldable pub check_count : Requirement → ℕ → ℕ → Bool
check_count nothing identified total = identified == 0
check_count one identified total = identified == 1
check_count any identified total = ltb 0 identified
check_count all identified total = identified == total

-- A value of `self.classifiers`.
pub record Classifier : Type 0 where
  pub identifiers : List String
  pub require : Requirement

abbrev pub ClassifierSet : Type 0
ClassifierSet = List (String × Classifier)

abbrev pub duplicate : String → Error
duplicate name = value_error (concat ("Duplicate classifier '" ∷ name ∷ "'" ∷ []))

abbrev pub unknown : List String → Error
unknown missing = value_error (concat ("Unknown identifiers: " ∷ join ", " missing ∷ []))

-- The identifiers that the set of identifiers does not have.
abbrev pub missing_of : IdentifierSet → List String → List String
missing_of is identifiers = filter_by (λ i. not (contains_name is i)) identifiers

-- `require_tests[classifier.get("require", "any")]`.
require_of : Json → Result Requirement
unfolding requirement_of
require_of classifier = do
  m ← as_dict classifier
  name ← elim (get "require" m) [ none ↦ ok "any" | some v ↦ as_text v ]
  or_raise (requirement_of name) (key_error name)

-- One round of the constructor's loop.
unfoldable pub add : IdentifierSet → ClassifierSet → Json → Result ClassifierSet
unfolding require_of texts
add is classifiers classifier = do
  n ← get_item classifier "name"
  name ← as_text n
  guard (not (has_key name classifiers)) (duplicate name)
  v ← get_item classifier "identifiers"
  vs ← as_list v
  identifiers ← texts vs
  guard (is_empty (missing_of is identifiers)) (unknown (missing_of is identifiers))
  require ← require_of classifier
  ok (classifiers ++ (name, record { identifiers = identifiers; require = require }) ∷ [])

unfoldable pub add_all : IdentifierSet → ClassifierSet → List Json → Result ClassifierSet
add_all is classifiers [] = ok classifiers
add_all is classifiers (c ∷ fodder) = do more ← add is classifiers c; add_all is more fodder

unfoldable pub construct : IdentifierSet → List Json → Result ClassifierSet
unfolding add_all
construct is fodder = add_all is [] fodder

-- Whether the identified names make up one classification.
unfoldable pub classified : List String → Classifier → Bool
classified identified c =
    check_count c.require (length (filter_by (contains identified) c.identifiers))
      (length c.identifiers)

-- `classifications`: the names, in the order of the file.
unfoldable pub classifications : ClassifierSet → List String → List String
classifications [] identified = []
classifications ((name, c) ∷ classifiers) identified =
    let rest = classifications classifiers identified in
    if classified identified c then name ∷ rest else rest
