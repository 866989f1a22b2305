-- ===== src/SafeRun.antt =====
-- python-pscheduler/pscheduler/pscheduler/saferun.py: a program's main function run under
-- `safe_run`, which starts the program again. One process is one step: what the function did is its
-- argument, and what the next process inherits through the environment is its result. Times are in
-- microseconds.
pub mod Restarts
pub mod Backoff
use pscheduler.Common.{
  ℕ, ◌+◌, Bool, true, false, not, ◌&&◌, ◌==◌, ltb, Option, none, some, List, [], ◌∷◌, if◌then◌else◌,
}

-- The arguments of `safe_run`.
pub record Settings : Type 0 where
  pub backoff : ℕ
  pub backoff_max : ℕ
  pub restart : Bool

-- What is pickled into the environment.
pub record Saved : Type 0 where
  pub initial_backoff : ℕ
  pub current_backoff : ℕ
  pub runs : ℕ

-- The variable of the environment: not there, not to be decoded, or a state.
pub data Inherited : Type 0 where
  absent undecodable : Inherited
  saved : Saved → Inherited

-- How the function came to its end: it returned, it was interrupted from the keyboard, it raised an
-- exception after a time, or it raised SystemExit, which `except Exception` does not catch.
pub data Outcome : Type 0 where
  returned interrupted : Outcome
  raised : (ran : ℕ) → Outcome
  system_exit : (code : ℕ) → Outcome

-- How the process ends: for good, or by executing the program again after a wait, if there was one.
pub data Ending : Type 0 where
  exited : (code : ℕ) → Ending
  restarted : (waited : Option ℕ) → Saved → Ending

unfoldable pub inherit : Settings → Inherited → Option Saved
inherit c absent =
    some (record { initial_backoff = c.backoff; current_backoff = c.backoff; runs = 0 })
inherit c undecodable = none
inherit c (saved s) = some s

-- `except Exception`. Where the function ran longer than the backoff and has returned before, the
-- code assigns `initial_backoff` to `currrent_backoff`, a variable that it never reads.
unfoldable pub after_exception : Settings → Saved → (ran : ℕ) → Ending
after_exception c s ran =
    if ltb s.current_backoff ran && not (s.runs == 0)
    then restarted none s
    else restarted (some s.current_backoff) (
        if ltb s.current_backoff c.backoff_max
        then record s { current_backoff = s.current_backoff + s.initial_backoff }
        else s)

unfoldable pub run_function : Settings → Saved → Outcome → Ending
run_function c s returned =
    if c.restart then restarted none (record s { runs = s.runs + 1 }) else exited 0
run_function c s interrupted = exited 0
run_function c s (raised ran) = after_exception c s ran
run_function c s (system_exit code) = exited code

-- One process.
unfoldable pub safe_run : Settings → Inherited → Outcome → Ending
safe_run c env outcome = elim (inherit c env) [
  | none ↦ exited 1
  | some s ↦ run_function c s outcome
]

-- The processes one after the other, by what their functions do: the last ending, if there was a
-- process.
unfoldable pub life : Settings → Inherited → List Outcome → Option Ending
life c env [] = none
life c env (o ∷ []) = some (safe_run c env o)
life c env (o ∷ p ∷ os) = elim (safe_run c env o) [
  | exited code ↦ some (exited code)
  | restarted waited s ↦ life c (saved s) (p ∷ os)
]
