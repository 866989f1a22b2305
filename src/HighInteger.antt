-- ===== src/HighInteger.antt =====
-- `HighInteger` of python-pscheduler/pscheduler/pscheduler/numeric.py: the value is an argument and a
-- result of `set`. An initial value is an integer.
use pscheduler.Common.{
  ◌≡◌, Bool, true, false, ltb, Option, none, some, Bool-cases, inl, inr, arith, List, [], ◌∷◌,
  Result, ok, err, value_error, ◌>>=◌, if◌then◌else◌, refl,
}
use mathlib.Core.Path.{subst}
use pscheduler.Json.{Json, ℤ, pos, negsuc, num, bool}

-- `a > b`.
unfoldable greater : ℤ → ℤ → Bool
greater (pos a) (pos b) = ltb b a
greater (pos a) (negsuc b) = true
greater (negsuc a) (pos b) = false
greater (negsuc a) (negsuc b) = ltb a b

unfoldable replaced : Option ℤ → ℤ → Option ℤ
replaced none n = some n
replaced (some old) n = if greater n old then some n else some old

-- `set`. A boolean is an integer.
unfoldable pub set : Option ℤ → Json → Result (Option ℤ)
unfolding replaced greater
set value (num n) = ok (replaced value n)
set value (bool true) = ok (replaced value (pos 1))
set value (bool false) = ok (replaced value (pos 0))
set value v = err (value_error "Value must be an integer.")

-- The values that are set one after the other.
set_all : Option ℤ → List Json → Result (Option ℤ)
set_all value [] = ok value
set_all value (v ∷ vs) = do next ← set value v; set_all next vs

highest : set_all none (num (pos 5) ∷ num (pos 4) ∷ []) ≡ ok (some (pos 5))
unfolding set_all set
highest = refl

greater-irreflexive : (a : ℤ) → greater a a ≡ false
unfolding greater
greater-irreflexive (pos a) = ground arith
greater-irreflexive (negsuc a) = ground arith

greater-asymmetric : (a b : ℤ) → greater a b ≡ true → greater b a ≡ false
unfolding greater
greater-asymmetric (pos a) (pos b) h = ground arith
greater-asymmetric (pos a) (negsuc b) h = refl
greater-asymmetric (negsuc a) (pos b) h = absurd (cc)
greater-asymmetric (negsuc a) (negsuc b) h = ground arith

-- The value after a call is no less than the one before it and the one that is set.
set-highest :
    (old n m : ℤ)
    → set (some old) (num n) ≡ ok (some m)
    → (greater old m ≡ false) × (greater n m ≡ false)
unfolding set replaced
set-highest old n m h = elim (Bool-cases (greater n old)) [
  | inl e ↦
      let same : n ≡ m = ground (arith, e, h) in
      subst (λ k. (greater old k ≡ false) × (greater n k ≡ false)) same
        (greater-asymmetric n old e, greater-irreflexive n)
  | inr e ↦
      let same : old ≡ m = ground (arith, e, h) in
      subst (λ k. (greater old k ≡ false) × (greater n k ≡ false)) same (greater-irreflexive old, e)
]
