-- ===== src/ExpiringSet/Fetch.antt =====
-- What a call returns.
use pscheduler.Common.{
  ℕ, ◌+◌, String, ◌≡◌, refl, false, not, ◌&&◌, ltb, str_eq_refl, lookup, keys, AllDistinct,
  filter_by, Option, none, some, [], ◌∷◌, ok, arith, Bool-cases, inl, inr,
}
use text.Mathlib.TextEquality.{eq_iff}
use pscheduler.ExpiringSet.{
  Entry, Entries, ExpiringSet, Clock, store, purge, too_early, keep, serve, fetch,
}
use pscheduler.ExpiringSet.Purge.{alive, purge-expires}

module _ {I : Type 0} where
  lookup-filter :
      (now : ℕ) (m : Entries I) (k : String) (e : Entry I)
      → lookup k m ≡ some e
      → ltb e.expires now ≡ false
      → lookup k (filter_by (alive now) m) ≡ some e
  lookup-filter now [] k e h a = cc
  lookup-filter now ((j, f) ∷ m) k e h a = ground (arith, lookup-filter now m k e, eq_iff j k)

  lookup-store : (k : String) (v : Entry I) (m : Entries I) → lookup k (store k v m) ≡ some v
  lookup-store k v [] = rw str_eq_refl refl
  lookup-store k v ((j, f) ∷ m) = ground (arith, lookup-store k v m, eq_iff j k)

  -- A purge that a call makes leaves what has not expired.
  purge-live :
      (interval : Option ℕ) (gate now : ℕ) (s : ExpiringSet I) (k : String) (e : Entry I)
      → AllDistinct (keys s.items)
      → lookup k s.items ≡ some e
      → ltb e.expires now ≡ false
      → (t : ExpiringSet I) × (purge interval false gate now s ≡ ok t) × (lookup k t.items ≡ some e)
  unfolding purge
  purge-live interval gate now s k e d h a = elim (Bool-cases (too_early gate s && not false)) [
    | inl y ↦ (s, rw y, h)
    | inr n ↦
        let (t, done, left, gone) = purge-expires interval false gate now s d n in
        (t, done, rw left (lookup-filter now s.items k e h a))
  ]

  serve-live :
      {D : Type 0}
      → (creator : String → D → I) (c : Clock) (key : String) (data' : D) (cache_time : Option ℕ)
        (t : ExpiringSet I) (e : Entry I)
      → lookup key t.items ≡ some e
      → ltb e.expires c.check ≡ false
      → serve creator c key data' cache_time t ≡ ok (keep c key e.item cache_time t)
  unfolding serve
  serve-live creator c key data' cache_time t e found b = rw (serve, found, b)

  -- A call for an item that is in the set and has not expired returns that item and no new one,
  -- and gives it a new time of expiry, by the time of the call.
  fetch-live :
      {D : Type 0}
      → (creator : String → D → I) (interval : Option ℕ) (c : Clock) (key : String) (data' : D)
        (cache_time : Option ℕ) (s : ExpiringSet I) (e : Entry I)
      → AllDistinct (keys s.items)
      → lookup key s.items ≡ some e
      → ltb e.expires c.now ≡ false
      → ltb e.expires c.check ≡ false
      → (t : ExpiringSet I) × (fetch creator interval c key data' cache_time s ≡ ok (e.item, t))
        × (lookup key t.items
            ≡ some (record {
              item = e.item;
              expires = elim cache_time [ none ↦ c.stored | some d ↦ c.stored + d ];
              cache_time = cache_time;
            }))
  unfolding fetch keep
  fetch-live creator interval c key data' cache_time s e d h a b =
      let (t, purged, found) = purge-live interval c.gate c.now s key e d h a in
      (
        (keep c key e.item cache_time t).1,
        rw (purged, serve-live creator c key data' cache_time t e found b),
        lookup-store key _ t.items,
      )
