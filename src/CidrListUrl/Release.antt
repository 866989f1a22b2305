-- ===== src/CidrListUrl/Release.antt =====
-- The flag never stays set.
use pscheduler.Common.{
  ℕ, zero, suc, ◌≤◌, String, ◌≡◌, ap, refl, true, false, some, List, [], ◌∷◌, count_of, arith,
  Bool-cases, inl, inr,
}
use pscheduler.World.{World}
use pscheduler.CidrListUrl.{Settings, release, fetched, store}
use pscheduler.CidrListUrl.Threads.{
  Phase, outside, working, leaving, phase_at, set_phase, System, work, leave, Steps, here, next,
  start, advance,
}
use pscheduler.CidrListUrl.Exclusion.{is_busy, bit, Steps-IsExclusive}

-- Where there is a busy thread, one can be named.
busy_thread :
    (ps : List Phase)
    → 1 ≤ count_of is_busy ps
    → (i : ℕ) × (p : Phase) × (phase_at i ps ≡ some p) × (is_busy p ≡ true)
unfolding phase_at
busy_thread [] h = absurd (omega arith)
busy_thread (working ∷ ps) h = (0, working, refl, refl)
busy_thread (leaving ∷ ps) h = (0, leaving, refl, refl)
busy_thread (outside ∷ ps) h = let (i, p, e, b) = busy_thread ps (omega arith) in (suc i, p, e, b)

phase_at-set_phase :
    (i : ℕ) (p q : Phase) (ps : List Phase)
    → phase_at i ps ≡ some p
    → phase_at i (set_phase i q ps) ≡ some q
unfolding phase_at set_phase
phase_at-set_phase zero p q [] h = cc
phase_at-set_phase (suc i) p q [] h = cc
phase_at-set_phase zero p q (x ∷ ps) h = refl
phase_at-set_phase (suc i) p q (x ∷ ps) h = phase_at-set_phase i p q ps h

-- Steps lead to a system where the flag is not set.
abbrev pub Frees : World → Settings → System → Type 0
Frees w c s = (t : System) × Steps w c s t × (t.shared.updating ≡ false)

busy-Frees :
    (w : World) (c : Settings) (s : System) (answer : ℕ × String) (asked now i : ℕ) (p : Phase)
    → phase_at i s.threads ≡ some p
    → is_busy p ≡ true
    → Frees w c s
unfolding release
busy-Frees w c s answer asked now i outside h b = cc
busy-Frees w c s answer asked now i leaving h b =
    (advance s i outside (release s.shared), next here (leave i h), refl)
busy-Frees w c s answer asked now i working h b =
    let t = advance s i leaving (store c (fetched w c answer) asked now s.shared) in
    (
      advance t i outside (release t.shared),
      next (next here (work i answer asked now h))
          (leave i (phase_at-set_phase i working leaving s.threads h)),
      refl,
    )

-- In every system that can come about, steps lead on to one where the flag is not set, whatever the
-- server answers: no exception and no failed update leaves the list closed to later updates.
pub Steps-Frees :
    (w : World) (c : Settings) (n : ℕ) (s : System) (answer : ℕ × String) (asked now : ℕ)
    → Steps w c (start n) s
    → Frees w c s
Steps-Frees w c n s answer asked now before = elim (Bool-cases s.shared.updating) [
  | inr free ↦ (s, here, free)
  | inl set ↦
      let (i, p, e, b) =
        busy_thread s.threads (omega (arith, Steps-IsExclusive w c n s before, ap bit set)) in
      busy-Frees w c s answer asked now i p e b
]
