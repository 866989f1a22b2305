-- ===== src/SafeRun/Backoff.antt =====
-- How long the program waits before it is started again.
use pscheduler.Common.{ℕ, suc, ◌+◌, ◌*◌, ◌≤◌, ◌<◌, ◌≡◌, ◌⊎◌, Option, some, inl, inr, arith}
use pscheduler.SafeRun.{
  Settings, Saved, absent, Outcome, returned, interrupted, raised, system_exit, restarted, inherit,
  after_exception, run_function,
}

-- The states of the processes after one: those that a sequence of restarts leads to.
pub data Later (c : Settings) (s : Saved) : Saved → Type 0 where
  here : Later c s s
  next :
      {t t' : Saved} (o : Outcome) (waited : Option ℕ)
      → Later c s t
      → run_function c t o ≡ restarted waited t'
      → Later c s t'

-- One restart.
step_backoff :
    (c : Settings) (s s' : Saved) (o : Outcome) (waited : Option ℕ)
    → run_function c s o ≡ restarted waited s'
    → (s'.initial_backoff ≡ s.initial_backoff)
      × ((s'.current_backoff ≡ s.current_backoff)
          ⊎ ((s.current_backoff < c.backoff_max)
              × (s'.current_backoff ≡ s.current_backoff + s.initial_backoff)))
unfolding run_function after_exception
step_backoff c s s' returned waited h = ground arith
step_backoff c s s' interrupted waited h = ground arith
step_backoff c s s' (raised ran) waited h = ground arith
step_backoff c s s' (system_exit code) waited h = ground arith

-- The backoff never becomes shorter, whatever the functions of the processes do: not either where
-- one ran longer than the backoff after another returned, which the documentation of `safe_run`
-- says resets it.
pub never_resets :
    (c : Settings) (s s' : Saved) → Later c s s' → s.current_backoff ≤ s'.current_backoff
never_resets c s s' here = omega arith
never_resets c s s' (next {t = t} o waited l e) =
    let step = step_backoff c t s' o waited e in ground (arith, never_resets c s t l)

-- In a program that started without a state the backoff is always the first one times a number that
-- is not zero, and longer than the longest backoff by one step at most.
pub backoff_bounds :
    (c : Settings) (first s : Saved)
    → inherit c absent ≡ some first
    → Later c first s
    → (s.initial_backoff ≡ c.backoff)
      × (s.current_backoff ≤ c.backoff_max + c.backoff)
      × (k : ℕ) × (s.current_backoff ≡ suc k * c.backoff)
unfolding inherit
backoff_bounds c first s h here = (cc, ground arith, 0, ground arith)
backoff_bounds c first s h (next {t = t} o waited l e) =
    let (i, b, k, m) = backoff_bounds c first t h l in
    let (j, d) = step_backoff c t s o waited e in
    elim d [
      | inl same ↦ (cc, omega arith, k, cc)
      | inr more ↦ (cc, omega arith, suc k, ground (arith, more.1, m, i))
    ]
