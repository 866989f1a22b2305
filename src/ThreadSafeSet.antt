-- ===== src/ThreadSafeSet.antt =====
-- `ThreadSafeSet` and `ThreadSafeSetHold` of python-pscheduler/pscheduler/pscheduler/threadsafe.py.
-- Each method runs under the lock, so it is one step; a hold is made, entered and left in three
-- steps, between which other threads may run.
pub mod Holds
use pscheduler.Common.{
  String, Bool, true, false, not, str_eq, contains, filter_by, concat, List, [], ◌∷◌, ◌++◌, ◌≡◌,
  Result, ok, err, key_error, if◌then◌else◌,
}

-- The keys of `self.items`.
abbrev pub ThreadSafeSet : Type 0
ThreadSafeSet = List String

unfoldable pub add : String → ThreadSafeSet → ThreadSafeSet
add id items = if contains items id then items else items ++ id ∷ []

unfoldable pub drop : String → ThreadSafeSet → ThreadSafeSet
drop id items = filter_by (λ j. not (str_eq j id)) items

-- `ThreadSafeSetHold(set, id)`: the hold is the id that it is for.
unfoldable pub hold : ThreadSafeSet → String → Result String
hold items id =
    if contains items id
    then err (key_error (concat ("ID " ∷ id ∷ " is already being held." ∷ [])))
    else ok id

-- A set with the holds on it, of whatever threads: those that are made and not entered, and those
-- that are entered and not left.
pub record State : Type 0 where
  pub items : ThreadSafeSet
  pub made : List String
  pub entered : List String

pub data Step : State → State → Type 0 where
  make :
      (items : ThreadSafeSet) (made entered : List String) (id : String)
      → hold items id ≡ ok id
      → Step
          (record { items = items; made = made; entered = entered })
          (record { items = items; made = id ∷ made; entered = entered })
  enter :
      (items : ThreadSafeSet) (before after entered : List String) (id : String)
      → Step
          (record { items = items; made = before ++ id ∷ after; entered = entered })
          (record { items = add id items; made = before ++ after; entered = id ∷ entered })
  leave :
      (items : ThreadSafeSet) (made before after : List String) (id : String)
      → Step
          (record { items = items; made = made; entered = before ++ id ∷ after })
          (record { items = drop id items; made = made; entered = before ++ after })

pub data Steps : State → State → Type 0 where
  done : {s : State} → Steps s s
  then' : {s t u : State} → Step s t → Steps t u → Steps s u
