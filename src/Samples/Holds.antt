-- ===== src/Samples/Holds.antt =====
-- Holds on an empty set.
use pscheduler.Common.{String, ◌≡◌, refl, false, contains, List, [], ◌∷◌, ok}
use pscheduler.ThreadSafeSet.{add, hold, Steps, make, enter, done, then'}
use pscheduler.ThreadSafeSet.Holds.{Held, two_holders}
use pscheduler.ThreadSafeSet.Holds.{Steps-Held}

free : hold [] "run" ≡ ok "run"
unfolding hold
free = refl

one :
    Steps
      (record { items = []; made = []; entered = [] })
      (record { items = add "run" []; made = []; entered = "run" ∷ [] })
one = then' (make [] [] [] "run" free) (then' (enter [] [] [] [] "run") done)

nothing-Held : Held (record { items = []; made = []; entered = [] })
nothing-Held id e = cc

two_holders_example :
    (after : List String) × Steps
      (record { items = []; made = []; entered = [] })
      (record { items = add "run" (add "run" []); made = []; entered = "run" ∷ "run" ∷ [] })
    × Steps
        (record { items = []; made = []; entered = [] })
        (record { items = after; made = []; entered = "run" ∷ [] })
    × (contains after "run" ≡ false)
two_holders_example = two_holders [] "run" refl

Steps-Held_example : Held (record { items = add "run" []; made = []; entered = "run" ∷ [] })
Steps-Held_example = Steps-Held one nothing-Held
