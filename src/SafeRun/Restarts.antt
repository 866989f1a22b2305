-- ===== src/SafeRun/Restarts.antt =====
-- Which programs are started again.
use pscheduler.Common.{
  ℕ, ◌+◌, ◌≡◌, ◌≢◌, ◌∙◌, refl, true, ◌&&◌, not, ltb, ◌==◌, Option, none, some, List, [], ◌∷◌, All,
  Bool-cases, inl, inr, if◌then◌else◌,
}
use pscheduler.SafeRun.{
  Settings, Saved, Inherited, saved, absent, undecodable, Outcome, returned, interrupted, raised,
  system_exit, Ending, restarted, inherit, after_exception, run_function, safe_run, life,
}

-- The function returned or raised an exception.
abbrev pub CarriesOn : Outcome → Type 0
CarriesOn returned = Unit
CarriesOn (raised ran) = Unit
CarriesOn interrupted = ⊥
CarriesOn (system_exit code) = ⊥

abbrev pub Restarted : Ending → Type 0
Restarted e = (waited : Option ℕ) × (s : Saved) × (e ≡ restarted waited s)

exception-Restarted : (c : Settings) (s : Saved) (ran : ℕ) → Restarted (after_exception c s ran)
unfolding after_exception
exception-Restarted c s ran =
    let later : Saved =
      if ltb s.current_backoff c.backoff_max
      then record s { current_backoff = s.current_backoff + s.initial_backoff }
      else s in
    elim (Bool-cases (ltb s.current_backoff ran && not (s.runs == 0))) [
      | inl e ↦ (none, s, rw e refl)
      | inr e ↦ (some s.current_backoff, later, rw e refl)
    ]

run-Restarted :
    (c : Settings) (s : Saved) (o : Outcome)
    → c.restart ≡ true
    → CarriesOn o
    → Restarted (run_function c s o)
unfolding run_function
run-Restarted c s returned r h = (none, record s { runs = s.runs + 1 }, rw r refl)
run-Restarted c s (raised ran) r h = exception-Restarted c s ran
run-Restarted c s interrupted r h = elim h [ ]
run-Restarted c s (system_exit code) r h = elim h [ ]

life-saved :
    (c : Settings) (s : Saved) (o : Outcome) (os : List Outcome)
    → c.restart ≡ true
    → All CarriesOn (o ∷ os)
    → (e : Ending) × (life c (saved s) (o ∷ os) ≡ some e) × Restarted e
unfolding life safe_run inherit
life-saved c s o [] r h = (run_function c s o, refl, run-Restarted c s o r h.0)
life-saved c s o (p ∷ os) r h =
    let (waited, s', e) = run-Restarted c s o r h.0 in
    let (e', l, d) = life-saved c s' p os r h.1 in (e', rw (e, life) l, d)

-- No state is the same as the first state.
same_life :
    (c : Settings) (o : Outcome) (os : List Outcome)
    → life c absent (o ∷ os)
      ≡ life c
          (saved (record { initial_backoff = c.backoff; current_backoff = c.backoff; runs = 0 }))
          (o ∷ os)
unfolding life safe_run inherit
same_life c o [] = refl
same_life c o (p ∷ os) = refl

-- Under `safe_run` with `restart`, a program that inherits no state or one that can be decoded, and
-- whose functions only return or raise exceptions, is started again after each process, however
-- many there are.
pub life-Restarted :
    (c : Settings) (env : Inherited) (o : Outcome) (os : List Outcome)
    → c.restart ≡ true
    → env ≢ undecodable
    → All CarriesOn (o ∷ os)
    → (e : Ending) × (life c env (o ∷ os) ≡ some e) × Restarted e
life-Restarted c (saved s) o os r d h = life-saved c s o os r h
life-Restarted c undecodable o os r d h = absurd (d refl)
life-Restarted c absent o os r d h =
    let s : Saved = record { initial_backoff = c.backoff; current_backoff = c.backoff; runs = 0 } in
    let (e, l, x) = life-saved c s o os r h in (e, same_life c o os ∙ l, x)
