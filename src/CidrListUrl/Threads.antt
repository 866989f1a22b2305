-- ===== src/CidrListUrl/Threads.antt =====
-- The threads that evaluate at once, and the steps that their calls of `__populate_cidrs__` take.
use pscheduler.Common.{ℕ, zero, suc, String, ◌≡◌, Option, none, some, List, [], ◌∷◌}
use pscheduler.World.{World}
use pscheduler.CidrListUrl.{Settings, Shared, fresh, claim, release, fetched, store}

-- Where a thread is: outside, in the update, or before the `finally`.
pub data Phase : Type 0 where
  outside working leaving : Phase

unfoldable pub phase_at : ℕ → List Phase → Option Phase
phase_at i [] = none
phase_at zero (p ∷ ps) = some p
phase_at (suc i) (p ∷ ps) = phase_at i ps

unfoldable pub set_phase : ℕ → Phase → List Phase → List Phase
set_phase i q [] = []
set_phase zero q (p ∷ ps) = q ∷ ps
set_phase (suc i) q (p ∷ ps) = p ∷ set_phase i q ps

pub record System : Type 0 where
  pub shared : Shared
  pub threads : List Phase

abbrev pub advance : System → ℕ → Phase → Shared → System
advance s i q shared = record { shared = shared; threads = set_phase i q s.threads }

-- One step of one thread: it goes into the update, or finds that it may not; it asks the server and
-- stores what comes of it; it leaves.
pub data Step (w : World) (c : Settings) (s : System) : System → Type 0 where
  enter :
      {shared : Shared} (i now : ℕ)
      → phase_at i s.threads ≡ some outside
      → claim now s.shared ≡ some shared
      → Step w c s (advance s i working shared)
  pass_by :
      (i now : ℕ) → phase_at i s.threads ≡ some outside → claim now s.shared ≡ none → Step w c s s
  work :
      (i : ℕ) (answer : ℕ × String) (asked now : ℕ)
      → phase_at i s.threads ≡ some working
      → Step w c s (advance s i leaving (store c (fetched w c answer) asked now s.shared))
  leave :
      (i : ℕ)
      → phase_at i s.threads ≡ some leaving
      → Step w c s (advance s i outside (release s.shared))

-- The systems that can come about: any number of threads begins outside.
pub data Steps (w : World) (c : Settings) (s : System) : System → Type 0 where
  here : Steps w c s s
  next : {t u : System} → Steps w c s t → Step w c t u → Steps w c s u

abbrev pub all_outside : ℕ → List Phase
all_outside zero = []
all_outside (suc n) = outside ∷ all_outside n

abbrev pub start : ℕ → System
start n = record { shared = fresh; threads = all_outside n }
