-- ===== src/Identifier/CidrList.antt =====
-- limitprocessor/identifier/ipcidrlist.py: the requester's address against a list of blocks.
use pscheduler.Common.{
  ◌≡◌, ◌↔◌, ◌≤◌, String, Bool, true, false, ◌&&◌, ◌||◌, List, [], ◌∷◌, Result, ok, ◌>>=◌, ◌>>◌, leb,
  ◌==◌, arith,
}
use pscheduler.Json.{Json, get_item, as_list}
use pscheduler.World.{World, Network}
use pscheduler.Proposal.{check_data}
use pscheduler.Limit.TestType.{texts}

-- `ip_network(str(cidr))` for each entry.
networks : World → List String → Result (List Network)
networks w [] = ok []
networks w (s ∷ ss) = do n ← w.ip_network s; ns ← networks w ss; ok (n ∷ ns)

unfoldable pub construct : World → Json → Result (List Network)
unfolding networks texts
construct w data' = do
  check_data w "ipcidrlist data_validator" data'
  v ← get_item data' "cidrs"
  vs ← as_list v
  ss ← texts vs
  networks w ss

-- `a.overlaps(b)`: one of the blocks holds the first or the last address of the other.
unfoldable pub overlaps : Network → Network → Bool
overlaps a b =
    a.version == b.version
    && (leb b.first a.first && leb a.first b.last
        || leb b.first a.last && leb a.last b.last
        || (leb a.first b.first && leb b.first a.last)
        || (leb a.first b.last && leb b.last a.last))

-- The loop over the blocks.
unfoldable pub listed : List Network → Network → Bool
listed [] ip = false
listed (cidr ∷ cidrs) ip = overlaps cidr ip || listed cidrs ip

-- Two blocks overlap exactly if they are of one version and some address lies in both.
pub overlaps_iff :
    (a b : Network)
    → a.first ≤ a.last
    → b.first ≤ b.last
    → (overlaps a b ≡ true) ↔ ((a.version ≡ b.version) × (a.first ≤ b.last) × (b.first ≤ a.last))
unfolding overlaps
overlaps_iff a b h k = ground arith
