-- ===== src/Samples/Restarts.antt =====
-- A program that fails, returns and fails again, under `safe_run`.
use pscheduler.Common.{ℕ, ◌+◌, ◌*◌, ◌≤◌, suc, ◌≡◌, ◌≢◌, refl, true, none, some, [], ◌∷◌}
use pscheduler.SafeRun.{
  Settings, Saved, absent, undecodable, returned, raised, Ending, restarted, run_function, inherit,
  after_exception, life,
}
use pscheduler.SafeRun.Restarts.{Restarted, life-Restarted}
use pscheduler.SafeRun.Backoff.{Later, here, next, never_resets, backoff_bounds}

abbrev settings : Settings
settings = record { backoff = 250000; backoff_max = 60000000; restart = true }

abbrev saved_after : (backoff runs : ℕ) → Saved
saved_after backoff runs = record {
  initial_backoff = 250000;
  current_backoff = backoff;
  runs = runs;
}

-- It fails at once, returns, and then fails after a minute, which does not bring its backoff back.
failed_once :
    run_function settings (saved_after 250000 0) (raised 10)
    ≡ restarted (some 250000) (saved_after 500000 0)
unfolding run_function after_exception
failed_once = refl

returned_once :
    run_function settings (saved_after 500000 0) returned ≡ restarted none (saved_after 500000 1)
unfolding run_function
returned_once = refl

failed_late :
    run_function settings (saved_after 500000 1) (raised 60000000)
    ≡ restarted none (saved_after 500000 1)
unfolding run_function after_exception
failed_late = refl

history : Later settings (saved_after 250000 0) (saved_after 500000 1)
history =
    next (raised 60000000) none
      (next returned none (next (raised 10) (some 250000) here failed_once) returned_once)
      failed_late

never_resets_example : 250000 ≤ 500000
never_resets_example = never_resets settings (saved_after 250000 0) (saved_after 500000 1) history

first : inherit settings absent ≡ some (saved_after 250000 0)
unfolding inherit
first = refl

backoff_bounds_example :
    (◌≡◌ {A = ℕ} 250000 250000) × (500000 ≤ 60000000 + 250000) × (k : ℕ) × (500000 ≡ suc k * 250000)
backoff_bounds_example =
    backoff_bounds settings (saved_after 250000 0) (saved_after 500000 1) first history

absent_is_decodable : absent ≢ undecodable
absent_is_decodable e = cc

life-Restarted_example :
    (e : Ending) × (life settings absent (raised 10 ∷ returned ∷ raised 60000000 ∷ []) ≡ some e)
    × Restarted e
life-Restarted_example =
    life-Restarted settings absent (raised 10) (returned ∷ raised 60000000 ∷ []) refl
      absent_is_decodable (tt, (tt, (tt, tt)))
