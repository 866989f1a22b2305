-- ===== src/Limit/RunSchedule/Ranges.antt =====
-- What `wrappable_range_overlaps` decides, and when it refuses its arguments.
use pscheduler.Common.{
  ℕ, zero, suc, ◌+◌, ◌-◌, ◌≤◌, ◌<◌, ◌≡◌, ◌↔◌, refl, Bool, true, ◌&&◌, List, [], ◌∷◌, ◌++◌, every,
  some_of, has, ok, arith, Bool-cases, inl, inr, le→leb, lt→leb_false, ap, sym, ◌∙◌, false,
}
use native.Mathlib.Decide.{ℕ_discrete}
use pscheduler.Limit.RunSchedule.{range_from, range, ranges, matches, wrappable_range_overlaps}

module _ (p : ℕ → Bool) where
  every-range_from :
      (n k : ℕ) → (every p (range_from n k) ≡ true) ↔ ((i : ℕ) → n ≤ i → i < n + k → p i ≡ true)
  unfolding range_from
  every-range_from n zero = ((λ _ i l h. absurd (omega arith)), λ _. refl)
  every-range_from n (suc k) = (
    (λ h i l u. elim (ℕ_discrete n i) [
      | yes e ↦ rw (← e) (ground arith)
      | no ne ↦ (every-range_from (n + 1) k).0 (ground arith) i (omega arith) (omega arith)
    ]),
    λ f.
        let first : p n ≡ true = f n (omega arith) (omega arith) in
        let rest : every p (range_from (n + 1) k) ≡ true =
          (every-range_from (n + 1) k).1 (λ i l u. f i (omega arith) (omega arith)) in
        rw first rest,
  )

  some_of-range_from :
      (n k : ℕ)
      → (some_of p (range_from n k) ≡ true) ↔ ((i : ℕ) × (n ≤ i) × (i < n + k) × (p i ≡ true))
  unfolding range_from
  some_of-range_from n zero = ((λ h. cc), λ (i, l, h, _). absurd (omega arith))
  some_of-range_from n (suc k) = (
    (λ h. elim (Bool-cases (p n)) [
      | inl e ↦ (n, omega arith, omega arith, e)
      | inr e ↦
          let (i, l, u, q) = (some_of-range_from (n + 1) k).0 (ground arith) in
          (i, omega arith, omega arith, q)
    ]),
    λ (i, l, u, q). elim (ℕ_discrete n i) [
      | yes e ↦ let first : p n ≡ true = rw e q in rw first
      | no ne ↦
          let rest : some_of p (range_from (n + 1) k) ≡ true =
            (some_of-range_from (n + 1) k).1 (i, omega arith, omega arith, q) in
          ground arith
    ],
  )

  every-append : (xs ys : List ℕ) → every p (xs ++ ys) ≡ (every p xs && every p ys)
  every-append [] ys = refl
  every-append (x ∷ xs) ys = ground (arith, every-append xs ys)

module _ (p : ℕ → Bool) (lower upper : ℕ) where
  every-range :
      (every p (range lower upper) ≡ true) ↔ ((i : ℕ) → lower ≤ i → i < upper → p i ≡ true)
  unfolding range
  every-range = (
    (λ h i l u. (every-range_from p lower (upper - lower)).0 h i l (omega arith)),
    λ f. (every-range_from p lower (upper - lower)).1 (λ i l u. f i l (omega arith)),
  )

  some_of-range :
      (some_of p (range lower upper) ≡ true) ↔ ((i : ℕ) × (lower ≤ i) × (i < upper) × (p i ≡ true))
  unfolding range
  some_of-range = (
    (λ h.
        let (i, l, u, q) = (some_of-range_from p lower (upper - lower)).0 h in
        (i, l, omega arith, q)),
    λ (i, l, u, q). (some_of-range_from p lower (upper - lower)).1 (i, l, omega arith, q),
  )

-- The arguments are accepted exactly if `wrap_to` is below `wrap_after` and the start and the end
-- both lie between them; any other call raises an exception.
wrappable_range_overlaps-accepts :
    (start end : ℕ) (test : List ℕ) (wrap_after wrap_to : ℕ) (overlap : Bool)
    → ((b : Bool) × (wrappable_range_overlaps start end test wrap_after wrap_to overlap ≡ ok b)) ↔ (
        (wrap_to < wrap_after)
        × (wrap_to ≤ start)
        × (start ≤ wrap_after)
        × (wrap_to ≤ end)
        × (end ≤ wrap_after))
unfolding wrappable_range_overlaps
wrappable_range_overlaps-accepts start end test wrap_after wrap_to overlap = (
  (λ (b, e). ground arith),
  λ h. (matches test (ranges start end wrap_after wrap_to) overlap, ground arith),
)

-- The answer on accepted arguments.
accepted :
    (start end : ℕ) (test : List ℕ) (wrap_after wrap_to : ℕ) (overlap : Bool)
    → wrap_to < wrap_after
    → wrap_to ≤ start
    → start ≤ wrap_after
    → wrap_to ≤ end
    → end ≤ wrap_after
    → wrappable_range_overlaps start end test wrap_after wrap_to overlap
      ≡ ok (matches test (ranges start end wrap_after wrap_to) overlap)
unfolding wrappable_range_overlaps
accepted start end test wrap_after wrap_to overlap a b c d e = ground arith

module _ (start end wrap_after wrap_to : ℕ) where
  ranges_straight : start ≤ end → ranges start end wrap_after wrap_to ≡ range start (end + 1)
  unfolding ranges
  ranges_straight h = rw (le→leb _ _ h)

  ranges_wrapped :
      end < start
      → ranges start end wrap_after wrap_to ≡ range start (wrap_after + 1) ++ range 0 (wrap_to + 1)
  unfolding ranges
  ranges_wrapped h = rw (lt→leb_false _ _ h)

-- A schedule that does not wrap, to be contained in the test set: the answer is yes exactly if each
-- number from the start to the end is in the set.
straight_contained :
    (start end : ℕ) (test : List ℕ) (wrap_after wrap_to : ℕ)
    → wrap_to < wrap_after
    → wrap_to ≤ start
    → start ≤ end
    → end ≤ wrap_after
    → (wrappable_range_overlaps start end test wrap_after wrap_to false ≡ ok true)
      ↔ ((i : ℕ) → start ≤ i → i ≤ end → has test i ≡ true)
unfolding matches
straight_contained start end test wrap_after wrap_to a b c d =
    rw (accepted start end test wrap_after wrap_to false a b (omega arith) (omega arith) d) (
      rw (ranges_straight start end wrap_after wrap_to c) (
        (λ h i l u. (every-range (has test) start (end + 1)).0 (cc h) i l (omega arith)),
        λ f. ap ok ((every-range (has test) start (end + 1)).1 (λ i l u. f i l (omega arith))),
      ))

-- A schedule that does not wrap, to overlap the test set: the answer is yes exactly if some number
-- from the start to the end is in the set.
straight_overlaps :
    (start end : ℕ) (test : List ℕ) (wrap_after wrap_to : ℕ)
    → wrap_to < wrap_after
    → wrap_to ≤ start
    → start ≤ end
    → end ≤ wrap_after
    → (wrappable_range_overlaps start end test wrap_after wrap_to true ≡ ok true)
      ↔ ((i : ℕ) × (start ≤ i) × (i ≤ end) × (has test i ≡ true))
unfolding matches
straight_overlaps start end test wrap_after wrap_to a b c d =
    rw (accepted start end test wrap_after wrap_to true a b (omega arith) (omega arith) d) (
      rw (ranges_straight start end wrap_after wrap_to c) (
        (λ h.
            let (i, l, u, q) = (some_of-range (has test) start (end + 1)).0 (cc h) in
            (i, l, omega arith, q)),
        λ (i, l, u, q). ap ok ((some_of-range (has test) start (end + 1)).1 (i, l, omega arith, q)),
      ))

-- A schedule that wraps, to be contained in the test set: the answer is yes exactly if the numbers
-- from the start to the wrap are in the set and those from 0 to the wrap's target, which is not the
-- number where the schedule ends.
wrapped_contained :
    (start end : ℕ) (test : List ℕ) (wrap_after wrap_to : ℕ)
    → wrap_to ≤ end
    → end < start
    → start ≤ wrap_after
    → (wrappable_range_overlaps start end test wrap_after wrap_to false ≡ ok true) ↔ (
        ((i : ℕ) → start ≤ i → i ≤ wrap_after → has test i ≡ true)
        × ((i : ℕ) → i ≤ wrap_to → has test i ≡ true))
unfolding matches
wrapped_contained start end test wrap_after wrap_to a b c =
    rw
      (accepted start end test wrap_after wrap_to false (omega arith) (omega arith) c a
        (omega arith))
      (rw (ranges_wrapped start end wrap_after wrap_to b) (
        rw (every-append (has test)) (
          (λ h. (
            (λ i l u.
                (every-range (has test) start (wrap_after + 1)).0 (ground arith) i l (omega arith)),
            λ i u.
                (every-range (has test) 0 (wrap_to + 1)).0 (ground arith) i (omega arith)
                  (omega arith),
          )),
          λ (f, g).
              let first : every (has test) (range start (wrap_after + 1)) ≡ true =
                (every-range (has test) start (wrap_after + 1)).1 (λ i l u. f i l (omega arith)) in
              let second : every (has test) (range 0 (wrap_to + 1)) ≡ true =
                (every-range (has test) 0 (wrap_to + 1)).1 (λ i l u. g i (omega arith)) in
              rw first (rw second),
        )))

-- Of two schedules with the same start that wrap, the answer is the same: where they end is not
-- looked at, in either mode.
pub wrapped_end_ignored :
    (start end end' : ℕ) (test : List ℕ) (wrap_after wrap_to : ℕ) (overlap : Bool)
    → wrap_to ≤ end
    → wrap_to ≤ end'
    → end < start
    → end' < start
    → start ≤ wrap_after
    → wrappable_range_overlaps start end test wrap_after wrap_to overlap
      ≡ wrappable_range_overlaps start end' test wrap_after wrap_to overlap
wrapped_end_ignored start end end' test wrap_after wrap_to overlap a b c d e =
    accepted start end test wrap_after wrap_to overlap (omega arith) (omega arith) e a (omega arith)
    ∙ ap (λ r. ok (matches test r overlap))
        (ranges_wrapped start end wrap_after wrap_to c
          ∙ sym (ranges_wrapped start end' wrap_after wrap_to d))
    ∙ sym (
        accepted start end' test wrap_after wrap_to overlap (omega arith) (omega arith) e b
          (omega arith))
