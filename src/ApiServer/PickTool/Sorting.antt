-- ===== src/ApiServer/PickTool/Sorting.antt =====
-- The sorted list of scores.
use pscheduler.Common.{
  ℕ, ◌≤◌, String, leb, Bool-cases, inl, inr, arith, leb→le, All, [], ◌∷◌, if◌then◌else◌,
}
use mathlib.Core.Path.{subst}
use pscheduler.ApiServer.PickTool.{Numbers, insert, sorted}

-- The least score stands first.
abbrev pub IsLeastFirst : Numbers → Type 0
IsLeastFirst [] = Unit
IsLeastFirst (x ∷ xs) = All (λ y. x.1 ≤ y.1) xs

insert-All :
    (P : String × ℕ → Type 0) (x : String × ℕ) (ys : Numbers) → P x → All P ys → All P (insert x ys)
unfolding insert
insert-All P x [] p h = (p, tt)
insert-All P x (y ∷ ys) p (q, h) = elim (Bool-cases (leb x.1 y.1)) [
  | inl e ↦ rw e (p, (q, h))
  | inr e ↦ rw e (q, insert-All P x ys p h)
]

pub sorted-All : (P : String × ℕ → Type 0) (xs : Numbers) → All P xs → All P (sorted xs)
unfolding sorted
sorted-All P [] h = tt
sorted-All P (x ∷ xs) (p, h) = insert-All P x (sorted xs) p (sorted-All P xs h)

All-le : (a b : ℕ) (ys : Numbers) → a ≤ b → All (λ y. b ≤ y.1) ys → All (λ y. a ≤ y.1) ys
All-le a b [] h k = tt
All-le a b (y ∷ ys) h (k, ks) = (omega arith, All-le a b ys h ks)

insert-IsLeastFirst : (x : String × ℕ) (ys : Numbers) → IsLeastFirst ys → IsLeastFirst (insert x ys)
unfolding insert
insert-IsLeastFirst x [] h = tt
insert-IsLeastFirst x (y ∷ ys) h = elim (Bool-cases (leb x.1 y.1)) [
  | inl e ↦ let least = leb→le x.1 y.1 e in rw e (least, All-le x.1 y.1 ys least h)
  | inr e ↦ let least : y.1 ≤ x.1 = ground arith in rw e (insert-All (λ z. y.1 ≤ z.1) x ys least h)
]

pub sorted-IsLeastFirst : (xs : Numbers) → IsLeastFirst (sorted xs)
unfolding sorted
sorted-IsLeastFirst [] = tt
sorted-IsLeastFirst (x ∷ xs) = insert-IsLeastFirst x (sorted xs) (sorted-IsLeastFirst xs)

-- Back from the sorted list.
insert-back :
    (P : String × ℕ → Type 0) (x : String × ℕ) (ys : Numbers) → All P (insert x ys) → P x × All P ys
unfolding insert
insert-back P x [] (p, h) = (p, tt)
insert-back P x (y ∷ ys) h = elim (Bool-cases (leb x.1 y.1)) [
  | inl e ↦ subst (λ b. All P (if b then x ∷ y ∷ ys else y ∷ insert x ys)) e h
  | inr e ↦
      let (q, rest) : P y × All P (insert x ys) =
        subst (λ b. All P (if b then x ∷ y ∷ ys else y ∷ insert x ys)) e h in
      let (p, h') = insert-back P x ys rest in (p, (q, h'))
]

pub sorted-back : (P : String × ℕ → Type 0) (xs : Numbers) → All P (sorted xs) → All P xs
unfolding sorted
sorted-back P [] h = tt
sorted-back P (x ∷ xs) h =
    let (p, rest) = insert-back P x (sorted xs) h in (p, sorted-back P xs rest)
