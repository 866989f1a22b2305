-- ===== src/RetryPolicy/Schedule.antt =====
-- The policy as the plain sequence of the times to wait.
use pscheduler.Common.{
  ℕ, zero, suc, ◌+◌, ◌-◌, ◌≤◌, ◌<◌, ◌≡◌, refl, ltb, Option, none, some, List, [], ◌∷◌, ◌++◌, arith,
  if◌then◌else◌, Bool-cases, inl, inr,
}
use pscheduler.RetryPolicy.{Segment, retry}

module _ {ℓ} {W : Type ℓ} where
  abbrev pub times : ℕ → W → List W
  times zero x = []
  times (suc n) x = x ∷ times n x

  -- Each time to wait, as often as it is to be waited.
  abbrev pub schedule : List (Segment W) → List W
  schedule [] = []
  schedule (s ∷ policy) = times s.attempts s.wait ++ schedule policy

  abbrev pub get_elem? : List W → ℕ → Option W
  get_elem? [] n = none
  get_elem? (x ∷ xs) zero = some x
  get_elem? (x ∷ xs) (suc n) = get_elem? xs n

  get_elem?-times :
      (k : ℕ) (x : W) (rest : List W) (n : ℕ)
      → get_elem? (times k x ++ rest) n ≡ (if ltb n k then some x else get_elem? rest (n - k))
  get_elem?-times zero x rest n = ground arith
  get_elem?-times (suc k) x rest zero = ground arith
  get_elem?-times (suc k) x rest (suc n) = ground (arith, get_elem?-times k x rest n)

  -- After a number of attempts the time to wait is the element of that number, counted from 0, of
  -- the policy's times to wait written out one by one, and there is none if they have run out.
  retry-get_elem? :
      (policy : List (Segment W)) (attempts : ℕ)
      → retry policy attempts ≡ get_elem? (schedule policy) attempts
  unfolding retry
  retry-get_elem? [] attempts = refl
  retry-get_elem? (s ∷ policy) attempts = rw (
    get_elem?-times s.attempts s.wait (schedule policy) attempts,
    retry-get_elem? policy (attempts - s.attempts),
  )

  -- The number of attempts that a policy allows in all.
  abbrev pub total : List (Segment W) → ℕ
  total [] = 0
  total (s ∷ policy) = s.attempts + total policy

  -- A policy gives up exactly at the total of its segments' attempts: before it there is a time to
  -- wait, from it on there is none.
  retry-total :
      (policy : List (Segment W)) (attempts : ℕ)
      → (attempts < total policy → (x : W) × (retry policy attempts ≡ some x))
        × (total policy ≤ attempts → retry policy attempts ≡ none)
  unfolding retry
  retry-total [] attempts = ((λ h. absurd (omega arith)), (λ h. refl))
  retry-total (s ∷ policy) attempts =
      let (below, above) = retry-total policy (attempts - s.attempts) in
      elim (Bool-cases (ltb attempts s.attempts)) [
        | inl y ↦ ((λ h. (s.wait, rw y)), (λ h. ground arith))
        | inr n ↦ (
          (λ h. let (x, e) = below (ground arith) in (x, rw n e)),
          (λ h. rw n (above (ground arith))),
        )
      ]
