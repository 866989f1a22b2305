-- ===== src/CidrListUrl/Exclusion.antt =====
-- One update at a time.
use pscheduler.Common.{
  ℕ, zero, suc, ◌+◌, ◌≤◌, String, ◌≡◌, ap, refl, Bool, true, false, Option, none, some, List, [],
  ◌∷◌, Result, ok, err, count_of, if◌then◌else◌, arith,
}
use pscheduler.World.{World}
use pscheduler.CidrListUrl.{Settings, Shared, claim, release, fetched, store}
use pscheduler.CidrListUrl.Threads.{
  Phase, outside, working, leaving, phase_at, set_phase, System, Step, enter, pass_by, work, leave,
  Steps, here, next, start,
}

abbrev pub is_busy : Phase → Bool
is_busy outside = false
is_busy working = true
is_busy leaving = true

abbrev pub weight : Phase → ℕ
weight p = if is_busy p then 1 else 0

-- A change of one thread's phase changes the number of busy threads by that thread.
count-set_phase :
    (i : ℕ) (p q : Phase) (ps : List Phase)
    → phase_at i ps ≡ some p
    → count_of is_busy (set_phase i q ps) + weight p ≡ count_of is_busy ps + weight q
unfolding phase_at set_phase
count-set_phase zero p q [] h = cc
count-set_phase (suc i) p q [] h = cc
count-set_phase zero p q (x ∷ ps) h = let same : x ≡ p = cc in omega (arith, ap weight same)
count-set_phase (suc i) p q (x ∷ ps) h = omega (arith, count-set_phase i p q ps h)

-- A flag as a number.
abbrev pub bit : Bool → ℕ
bit b = if b then 1 else 0

bit_le : (b : Bool) → bit b ≤ 1
bit_le true = omega arith
bit_le false = omega arith

-- The flag is set exactly while a thread is in the update or about to leave it.
abbrev pub IsExclusive : System → Type 0
IsExclusive s = count_of is_busy s.threads ≡ bit s.shared.updating

pub claim-updating :
    (now : ℕ) (s t : Shared)
    → claim now s ≡ some t
    → (s.updating ≡ false) × (t.updating ≡ true) × (t.cidrs ≡ s.cidrs) × (t.length ≡ s.length)
unfolding claim
claim-updating now s t h = ground arith

store-updating :
    (c : Settings) (r : Result (Option (List String))) (asked now : ℕ) (s : Shared)
    → (store c r asked now s).updating ≡ s.updating
unfolding store
store-updating c (err e) asked now s = refl
store-updating c (ok none) asked now s = refl
store-updating c (ok (some new)) asked now s = refl

Step-IsExclusive :
    (w : World) (c : Settings) (s t : System) → IsExclusive s → Step w c s t → IsExclusive t
unfolding release
Step-IsExclusive w c s t x (enter {shared = shared} i now p h) =
    let (free, set, l, n) = claim-updating now s.shared shared h in
    rw set (omega (arith, count-set_phase i outside working s.threads p, x, ap bit free))
Step-IsExclusive w c s t x (pass_by i now p h) = x
Step-IsExclusive w c s t x (work i answer asked now p) =
    rw (store-updating c (fetched w c answer) asked now s.shared)
      (omega (arith, count-set_phase i working leaving s.threads p, x))
Step-IsExclusive w c s t x (leave i p) =
    omega (arith, count-set_phase i leaving outside s.threads p, x, bit_le s.shared.updating)

start-IsExclusive : (n : ℕ) → IsExclusive (start n)
start-IsExclusive zero = refl
start-IsExclusive (suc n) = omega (arith, start-IsExclusive n)

-- However many threads evaluate at once and in whatever order their steps come, whatever the server
-- answers, at most one of them is in an update, and the flag says whether one is.
pub Steps-IsExclusive :
    (w : World) (c : Settings) (n : ℕ) (s : System) → Steps w c (start n) s → IsExclusive s
Steps-IsExclusive w c n s here = start-IsExclusive n
Steps-IsExclusive w c n s (next {t = t} before step) =
    Step-IsExclusive w c t s (Steps-IsExclusive w c n t before) step
