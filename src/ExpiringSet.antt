-- ===== src/ExpiringSet.antt =====
-- python-pscheduler/pscheduler/pscheduler/expiringset.py. The items are of any type; the creator is
-- a function, and the calls of the destroyer are written down in order. Each reading of the clock is
-- an argument.
pub mod Purge
pub mod Fetch
use pscheduler.Common.{
  ℕ, ◌+◌, String, Bool, true, false, not, ◌&&◌, ltb, str_eq, lookup, Option, none, some, List, [],
  ◌∷◌, ◌++◌, Result, ok, err, key_error, ◌>>=◌, if◌then◌else◌,
}

-- A value of `self.items`.
pub record Entry (I : Type 0) : Type 0 where
  pub item : I
  pub expires : ℕ
  pub cache_time : Option ℕ

pub record ExpiringSet (I : Type 0) : Type 0 where
  pub items : List (String × Entry I)
  pub next_purge : Option ℕ
  pub destroyed : List I

abbrev pub Entries : Type 0 → Type 0
Entries I = List (String × Entry I)

-- The readings of the clock in one call.
pub record Clock : Type 0 where
  pub gate : ℕ
  pub now : ℕ
  pub check : ℕ
  pub stored : ℕ

module _ {I : Type 0} where
  -- `del items[key]` of a key that is there.
  abbrev pub erase : String → List (String × Entry I) → List (String × Entry I)
  erase k [] = []
  erase k ((j, e) ∷ m) = let rest = erase k m in if str_eq j k then m else (j, e) ∷ rest

  -- `items[key] = entry`: an old key keeps its place.
  abbrev pub store : String → Entry I → List (String × Entry I) → List (String × Entry I)
  store k v [] = (k, v) ∷ []
  store k v ((j, e) ∷ m) =
      let rest = store k v m in if str_eq j k then (j, v) ∷ m else (j, e) ∷ rest

  -- The constructor, at a time.
  unfoldable pub construct : (purge_interval : Option ℕ) (now : ℕ) → ExpiringSet I
  construct purge_interval now = record {
    items = [];
    next_purge = elim purge_interval [ none ↦ none | some d ↦ some (now + d) ];
    destroyed = [];
  }

  unfoldable pub expire : String → Bool → ExpiringSet I → Result (ExpiringSet I)
  expire key missing_ok s = elim (lookup key s.items) [
    | none ↦ if missing_ok then ok s else err (key_error key)
    | some e ↦ ok (record s { items = erase key s.items; destroyed = s.destroyed ++ e.item ∷ [] })
  ]

  -- `to_expire`.
  abbrev pub to_expire : ℕ → List (String × Entry I) → List String
  to_expire now [] = []
  to_expire now ((k, e) ∷ m) =
      let rest = to_expire now m in if ltb e.expires now then k ∷ rest else rest

  unfoldable pub expire_all : List String → ExpiringSet I → Result (ExpiringSet I)
  expire_all [] s = ok s
  expire_all (key ∷ names) s = do t ← expire key false s; expire_all names t

  -- `self.next_purge is not None and datetime.datetime.now() < self.next_purge`.
  abbrev pub too_early : ℕ → ExpiringSet I → Bool
  too_early now s = elim s.next_purge [ none ↦ false | some at' ↦ ltb now at' ]

  -- `purge`: the first reading of the clock is for the test whether it is time, the second is `now`.
  unfoldable pub purge : Option ℕ → Bool → (gate now : ℕ) → ExpiringSet I → Result (ExpiringSet I)
  purge purge_interval force gate now s = if too_early gate s && not force then ok s else (do
    t ← expire_all (to_expire now s.items) s
    ok (elim purge_interval [ none ↦ t | some d ↦ record t { next_purge = some (now + d) } ]))

  -- The end of a call: the item, with its new time of expiry.
  unfoldable pub keep : Clock → String → I → Option ℕ → ExpiringSet I → I × ExpiringSet I
  keep c key item cache_time s =
      let expires : ℕ = elim cache_time [ none ↦ c.stored | some d ↦ c.stored + d ] in
      (
        item,
        record s {
          items =
              store key (record { item = item; expires = expires; cache_time = cache_time })
                s.items;
        },
      )

  -- `__call__` from the look-up on.
  unfoldable pub serve :
      {D : Type 0}
      → (String → D → I)
      → Clock
      → String
      → D
      → Option ℕ
      → ExpiringSet I
      → Result (I × ExpiringSet I)
  serve creator c key data' cache_time s = elim (lookup key s.items) [
    | none ↦ ok (keep c key (creator key data') cache_time s)
    | some e ↦
        if ltb e.expires c.check
        then (do t ← expire key false s; ok (keep c key (creator key data') cache_time t))
        else ok (keep c key e.item cache_time s)
  ]

  -- `__call__`.
  unfoldable pub fetch :
      {D : Type 0}
      → (String → D → I)
      → Option ℕ
      → Clock
      → String
      → D
      → Option ℕ
      → ExpiringSet I
      → Result (I × ExpiringSet I)
  fetch creator purge_interval c key data' cache_time s = do
    t ← purge purge_interval false c.gate c.now s
    serve creator c key data' cache_time t
