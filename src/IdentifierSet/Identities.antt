-- ===== src/IdentifierSet/Identities.antt =====
-- Which identifiers are reported.
use pscheduler.Common.{
  String, ◌≡◌, refl, Bool, true, false, not, ◌&&◌, Option, List, [], ◌∷◌, ok, err, arith, >>=-eq-ok,
  filter_by, All,
}
use pscheduler.World.{World}
use pscheduler.Proposal.{Hints}
use pscheduler.Identifier
use pscheduler.IdentifierSet.{IdentifierSet, IdentifierEntry, names, inverts, identities}

-- The identifier's evaluator says yes, and the identifier is not inverted.
abbrev pub recognises : World → Option Hints → IdentifierEntry → Bool
recognises w hints i = elim (Identifier.evaluate w i.evaluator hints) [
  | ok b ↦ b && not (inverts i)
  | err e ↦ false
]

-- Where no evaluator raises an exception, the identities are the names of the identifiers that
-- recognise the hints and are not inverted, in the order of the file.
identities-filter :
    (w : World) (is : IdentifierSet) (hints : Option Hints) (found : List String)
    → identities w is hints ≡ ok found
    → found ≡ names (filter_by (recognises w hints) is)
unfolding identities
identities-filter w [] hints found h = cc
identities-filter w (i ∷ is) hints found h =
    let (b, e, h') = >>=-eq-ok (Identifier.evaluate w i.evaluator hints) _ h in
    let (rest, e', h'') = >>=-eq-ok (identities w is hints) _ h' in
    ground (arith, identities-filter w is hints rest e')

none_recognised :
    (w : World) (is : IdentifierSet) (hints : Option Hints)
    → All (λ i. inverts i ≡ true) is
    → names (filter_by (recognises w hints) is) ≡ []
none_recognised w [] hints a = refl
none_recognised w (i ∷ is) hints a = ground (arith, none_recognised w is hints a.1)

-- Inverted identifiers identify nobody: a set of them that raises no exception finds no identity,
-- whether its evaluators say yes or no.
inverted_identify_nobody :
    (w : World) (is : IdentifierSet) (hints : Option Hints) (found : List String)
    → All (λ i. inverts i ≡ true) is
    → identities w is hints ≡ ok found
    → found ≡ []
inverted_identify_nobody w is hints found a h =
    cc (identities-filter w is hints found h, none_recognised w is hints a)
