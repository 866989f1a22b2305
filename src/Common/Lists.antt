-- ===== src/Common/Lists.antt =====
-- Lists measured by native numbers, membership of texts and numbers as the program tests it, and
-- association lists: Python's `dict` in insertion order.
use Prim.Native.Nat.{ℕ, suc, ◌+◌, ◌≤◌}
use Prim.Native.String.{String}
use mathlib.Core.Path.{◌≡◌, refl}
use mathlib.Core.Bool.{Bool, true, false, ◌&&◌, ◌||◌}
use mathlib.Core.Option.{Option, none, some}
use mathlib.Core.List.{List, [], ◌∷◌, ◌++◌}
use native.Mathlib.Omega.{arith}
use text.Mathlib.TextEquality.{eq_iff}
use pscheduler.Common.Tests.{◌==◌, str_eq, if◌then◌else◌}

module _ {ℓ} {A : Type ℓ} where
  abbrev pub length : List A → ℕ
  length [] = 0
  length (x ∷ xs) = suc (length xs)

  pub length-append : (xs ys : List A) → length (xs ++ ys) ≡ length xs + length ys
  length-append [] ys = omega arith
  length-append (x ∷ xs) ys = omega (arith, length-append xs ys)

  -- `p` holds of each element.
  abbrev pub All {κ} : (A → Type κ) → List A → Type κ
  All P [] = Unit
  All P (x ∷ xs) = P x × All P xs

  -- The Boolean tests of Python's `all` and `any`.
  abbrev pub every : (A → Bool) → List A → Bool
  every p [] = true
  every p (x ∷ xs) = p x && every p xs

  abbrev pub some_of : (A → Bool) → List A → Bool
  some_of p [] = false
  some_of p (x ∷ xs) = p x || some_of p xs

  -- How many elements pass.
  abbrev pub count_of : (A → Bool) → List A → ℕ
  count_of p [] = 0
  count_of p (x ∷ xs) = (if p x then 1 else 0) + count_of p xs

  abbrev pub filter_by : (A → Bool) → List A → List A
  filter_by p [] = []
  filter_by p (x ∷ xs) = let rest = filter_by p xs in if p x then x ∷ rest else rest

  abbrev pub is_empty : List A → Bool
  is_empty [] = true
  is_empty (x ∷ xs) = false

  pub length-filter_by : (p : A → Bool) (xs : List A) → length (filter_by p xs) ≡ count_of p xs
  length-filter_by p [] = refl
  length-filter_by p (x ∷ xs) = ground (arith, length-filter_by p xs)

  pub count_of_le : (p : A → Bool) (xs : List A) → count_of p xs ≤ length xs
  count_of_le p [] = omega arith
  count_of_le p (x ∷ xs) = ground (arith, count_of_le p xs)

-- `s in l` for a list of texts, and for a set of numbers.
abbrev pub contains : List String → String → Bool
contains [] s = false
contains (x ∷ xs) s = str_eq x s || contains xs s

abbrev pub has : List ℕ → ℕ → Bool
has [] n = false
has (x ∷ xs) n = (x == n) || has xs n

-- No text stands twice in the list.
abbrev pub AllDistinct : List String → Type 0
AllDistinct [] = Unit
AllDistinct (x ∷ xs) = (contains xs x ≡ false) × AllDistinct xs

module _ {ℓ} {V : Type ℓ} where
  abbrev pub lookup : String → List (String × V) → Option V
  lookup k [] = none
  lookup k ((j, v) ∷ m) = if str_eq j k then some v else lookup k m

  abbrev pub keys : List (String × V) → List String
  keys [] = []
  keys ((j, w) ∷ m) = j ∷ keys m

  abbrev pub has_key : String → List (String × V) → Bool
  has_key k m = elim (lookup k m) [ none ↦ false | some v ↦ true ]

  pub contains-keys : (k : String) (m : List (String × V)) → contains (keys m) k ≡ has_key k m
  contains-keys k [] = refl
  contains-keys k ((i, w) ∷ m) = ground (arith, contains-keys k m)

pub contains-append :
    (xs ys : List String) (s : String) → contains (xs ++ ys) s ≡ (contains xs s || contains ys s)
contains-append [] ys s = refl
contains-append (x ∷ xs) ys s = ground (arith, contains-append xs ys s)

-- A new text at the end keeps a list free of duplicates.
pub AllDistinct-snoc :
    (xs : List String) (s : String)
    → AllDistinct xs
    → contains xs s ≡ false
    → AllDistinct (xs ++ s ∷ [])
AllDistinct-snoc [] s d n = (refl, tt)
AllDistinct-snoc (x ∷ xs) s d n = (
  rw (contains-append xs (s ∷ []) x) (ground (arith, eq_iff x s, eq_iff s x)),
  AllDistinct-snoc xs s d.1 (ground arith),
)
