-- ===== src/LimitProcessor/Hints.antt =====
-- The hints as diagnostics, by their names in order.
use Prim.Native.Nat.{Ordering}
use Prim.Native.String
use pscheduler.Common.{
  ◌≡◌, refl, String, concat, indent, Option, none, some, List, [], ◌∷◌, Bool, true, false,
  if◌then◌else◌,
}
use pscheduler.Proposal.{Hints}

not_after : String → String → Bool
not_after a b = elim (String.compare a b) [ Ordering.gt ↦ false | _ ↦ true ]

place : String × String → Hints → Hints
unfolding not_after
place h [] = h ∷ []
place h (g ∷ gs) = let rest = place h gs in if not_after h.0 g.0 then h ∷ g ∷ gs else g ∷ rest

-- `sorted(hints)`, with the hints' values.
sorted : Hints → Hints
unfolding place
sorted [] = []
sorted (h ∷ hs) = place h (sorted hs)

lines : Hints → List String
lines [] = []
lines ((k, v) ∷ hs) = indent (concat (k ∷ ": " ∷ v ∷ [])) ∷ lines hs

unfoldable pub hint_lines : Option Hints → List String
unfolding sorted lines
hint_lines none = []
hint_lines (some []) = []
hint_lines (some (h ∷ hs)) = "Hints:" ∷ lines (sorted (h ∷ hs))

in_order : hint_lines (some (("b", "2") ∷ ("a", "1") ∷ [])) ≡ "Hints:" ∷ "  a: 1" ∷ "  b: 2" ∷ []
unfolding hint_lines indent
in_order = refl
