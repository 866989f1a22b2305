-- ===== src/ExpiringSet/Purge.antt =====
-- What a purge leaves.
use pscheduler.Common.{
  ℕ, ◌+◌, String, ◌≡◌, refl, Bool, true, false, not, ◌&&◌, ◌||◌, ltb, str_eq, str_eq_refl, lookup,
  keys, contains, AllDistinct, filter_by, Option, some, Option-cases, inl, inr, List, [], ◌∷◌, ◌++◌,
  ok, arith, if◌then◌else◌, Bool-cases,
}
use mathlib.Core.List.{append_assoc, append-nil}
use text.Mathlib.TextEquality.{eq_iff}
use pscheduler.ExpiringSet.{
  Entry, Entries, ExpiringSet, erase, expire, to_expire, expire_all, purge, too_early,
}

module _ {I : Type 0} where
  abbrev pub alive : ℕ → String × Entry I → Bool
  alive now e = not (ltb e.1.expires now)

  -- The items whose time is over, in the order of the set.
  abbrev pub expired_items : ℕ → Entries I → List I
  expired_items now [] = []
  expired_items now ((k, e) ∷ m) =
      let rest = expired_items now m in if ltb e.expires now then e.item ∷ rest else rest

  lookup-middle :
      (kept m : Entries I) (k : String) (e : Entry I)
      → contains (keys kept) k ≡ false
      → lookup k (kept ++ (k, e) ∷ m) ≡ some e
  lookup-middle [] m k e h = rw str_eq_refl
  lookup-middle ((j, f) ∷ kept) m k e h = ground (arith, lookup-middle kept m k e)

  erase-middle :
      (kept m : Entries I) (k : String) (e : Entry I)
      → contains (keys kept) k ≡ false
      → erase k (kept ++ (k, e) ∷ m) ≡ kept ++ m
  erase-middle [] m k e h = rw str_eq_refl
  erase-middle ((j, f) ∷ kept) m k e h = ground (arith, erase-middle kept m k e)

  keys-snoc :
      (kept : Entries I) (k j : String) (e : Entry I)
      → contains (keys (kept ++ (k, e) ∷ [])) j ≡ (contains (keys kept) j || str_eq k j)
  keys-snoc [] k j e = ground arith
  keys-snoc ((i, f) ∷ kept) k j e = ground (arith, keys-snoc kept k j e)

  abbrev Apart : Entries I → Entries I → Type 0
  Apart kept m = (k : String) → contains (keys m) k ≡ true → contains (keys kept) k ≡ false

  expire-middle :
      (kept m : Entries I) (k : String) (e : Entry I) (next : Option ℕ) (gone : List I)
      → contains (keys kept) k ≡ false
      → expire k false (record { items = kept ++ (k, e) ∷ m; next_purge = next; destroyed = gone })
        ≡ ok (record { items = kept ++ m; next_purge = next; destroyed = gone ++ e.item ∷ [] })
  unfolding expire
  expire-middle kept m k e next gone h =
      rw (expire, lookup-middle kept m k e h, erase-middle kept m k e h)

  expire_all-filter :
      (now : ℕ) (m kept : Entries I) (next : Option ℕ) (gone : List I)
      → AllDistinct (keys m)
      → Apart kept m
      → expire_all
          (to_expire now m)
          (record { items = kept ++ m; next_purge = next; destroyed = gone })
        ≡ ok (record {
          items = kept ++ filter_by (alive now) m;
          next_purge = next;
          destroyed = gone ++ expired_items now m;
        })
  unfolding expire_all
  expire_all-filter now [] kept next gone d a = rw (append-nil gone)
  expire_all-filter now ((k, e) ∷ m) kept next gone d a = elim (Bool-cases (ltb e.expires now)) [
    | inl y ↦
        let absent : contains (keys kept) k ≡ false = a k (rw str_eq_refl refl) in
        let ih =
          expire_all-filter now m kept next (gone ++ e.item ∷ []) d.1 (λ j c. a j (ground arith)) in
        rw (y, expire-middle kept m k e next gone absent)
          (rw (append_assoc gone (e.item ∷ []) (expired_items now m)) at ih)
    | inr n ↦
        let ih =
          expire_all-filter now m (kept ++ (k, e) ∷ []) next gone d.1
            (λ j c. ground (arith, keys-snoc kept k j e, a j, eq_iff k j)) in
        rw n (
          rw
            (
              append_assoc kept ((k, e) ∷ []) m,
              append_assoc kept ((k, e) ∷ []) (filter_by (alive now) m),
            )
            at ih)
  ]

  -- A purge that is due or forced destroys exactly the items whose time is over, each once and in the
  -- order of the set, and leaves the others as they were, where no key stands twice.
  pub purge-expires :
      (interval : Option ℕ) (force : Bool) (gate now : ℕ) (s : ExpiringSet I)
      → AllDistinct (keys s.items)
      → (too_early gate s && not force) ≡ false
      → (t : ExpiringSet I) × (purge interval force gate now s ≡ ok t)
        × (t.items ≡ filter_by (alive now) s.items)
        × (t.destroyed ≡ s.destroyed ++ expired_items now s.items)
  unfolding purge
  purge-expires interval force gate now s d due =
      let done = expire_all-filter now s.items [] s.next_purge s.destroyed d (λ k c. refl) in
      let left : ExpiringSet I = record {
        items = filter_by (alive now) s.items;
        next_purge = s.next_purge;
        destroyed = s.destroyed ++ expired_items now s.items;
      } in
      elim (Option-cases interval) [
        | inl e ↦ (left, rw (due, done, e), refl, refl)
        | inr (i, e) ↦ (record left { next_purge = some (now + i) }, rw (due, done, e), refl, refl)
      ]
