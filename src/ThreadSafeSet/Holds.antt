-- ===== src/ThreadSafeSet/Holds.antt =====
-- What the holds guarantee, and what they do not.
use pscheduler.Common.{
  String, ◌≡◌, refl, true, false, not, ◌&&◌, ◌||◌, str_eq, str_eq_refl, contains, contains-append,
  List, [], ◌∷◌, ok, arith,
}
use text.Mathlib.TextEquality.{eq_iff}
use pscheduler.ThreadSafeSet.{add, drop, hold, State, Step, Steps, make, enter, leave, done, then'}

-- What is in the set is held.
abbrev pub Held : State → Type 0
Held s = (id : String) → contains s.items id ≡ true → contains s.entered id ≡ true

contains-add :
    (id j : String) (items : List String)
    → contains (add id items) j ≡ (str_eq id j || contains items j)
unfolding add
contains-add id j items = ground (arith, contains-append items (id ∷ []) j, eq_iff id j)

contains-drop :
    (id j : String) (items : List String)
    → contains (drop id items) j ≡ (not (str_eq id j) && contains items j)
unfolding drop
contains-drop id j [] = ground arith
contains-drop id j (x ∷ items) =
    ground (arith, contains-drop id j items, eq_iff x j, eq_iff x id, eq_iff id j)

Step-Held : {s t : State} → Step s t → Held s → Held t
Step-Held (make items made entered id e) h = h
Step-Held (enter items before after entered id) h =
    λ j c. ground (arith, contains-add id j items, h j)
Step-Held (leave items made before after id) h = λ j c. ground (
  arith,
  contains-drop id j items,
  contains-append before (id ∷ after) j,
  contains-append before after j,
  h j,
)

-- However the threads' steps interleave, what is in the set is held by a thread that has entered its
-- hold and has not left it, if that is so at the start: no hold is left behind.
pub Steps-Held : {s t : State} → Steps s t → Held s → Held t
Steps-Held done h = h
Steps-Held (then' step rest) h = Steps-Held rest (Step-Held step h)

both_enter :
    (items : List String) (id : String) {t : State}
    → contains items id ≡ false
    → Steps (record { items = add id (add id items); made = []; entered = id ∷ id ∷ [] }) t
    → Steps (record { items = items; made = []; entered = [] }) t
unfolding hold
both_enter items id absent rest =
    let made : hold items id ≡ ok id = rw absent in
    then' (make items [] [] id made) (
      then' (make items (id ∷ []) [] id made) (
        then' (enter items [] (id ∷ []) [] id)
          (then' (enter (add id items) [] [] (id ∷ []) id) rest)))

-- Two threads that ask for a hold on one id that is not in the set may both enter it, and when the
-- first of them leaves, the id is free while the other still holds it.
pub two_holders :
    (items : List String) (id : String)
    → contains items id ≡ false
    → (after : List String) × Steps
        (record { items = items; made = []; entered = [] })
        (record { items = add id (add id items); made = []; entered = id ∷ id ∷ [] })
      × Steps
          (record { items = items; made = []; entered = [] })
          (record { items = after; made = []; entered = id ∷ [] })
      × (contains after id ≡ false)
two_holders items id absent = (
  drop id (add id (add id items)),
  both_enter items id absent done,
  both_enter items id absent (then' (leave (add id (add id items)) [] [] (id ∷ []) id) done),
  rw (contains-drop id id (add id (add id items)), str_eq_refl) refl,
)
