-- ===== src/ApiServer/LimitProc/Follows.antt =====
-- Where the file's times are honest, the processor is that of the file as it was last checked.
use pscheduler.Common.{
  ℕ, ◌≤◌, ◌≡◌, refl, sym, Bool, true, false, ◌&&◌, Bool-cases, inl, inr, arith, Option, none, some,
  List, [], ◌∷◌, All, Result, ok, err, if◌then◌else◌, ap, leb→le,
}
use mathlib.Core.Path.{subst}
use pscheduler.World.{World}
use pscheduler.LimitProcessor.{Processor, inert}
use pscheduler.ApiServer.LimitProc.{
  LimitFile, LimitProc, initial, load, is_recent, is_unchanged, store, is_there, check, update,
}

-- One call of the update: the clock before and after it, and the file that it would find.
pub record Call : Type 0 where
  pub now : ℕ
  pub after : ℕ
  pub file : Option LimitFile

abbrev or_none : Result Processor → Option Processor
or_none (err e) = none
or_none (ok p) = some p

-- The abstract view: the processor that belongs to a file, or to none.
abbrev pub processor_of : World → Option LimitFile → Option Processor
processor_of w none = some inert
processor_of w (some f) = or_none (load w f)

abbrev pub run : World → List Call → LimitProc → LimitProc
run w [] s = s
run w (c ∷ calls) s = run w calls (update w c.now c.after c.file s)

-- The file that the last check of a run found.
abbrev pub noted : World → List Call → LimitProc → Option LimitFile → Option LimitFile
noted w [] s file = file
noted w (c ∷ calls) s file =
    noted w calls (update w c.now c.after c.file s)
      (if is_recent c.now s.last_check then file else c.file)

-- A later file is newer or the same, and a file that was there stays there.
abbrev pub IsDated : Option LimitFile → Option LimitFile → Type 0
IsDated none later = Unit
IsDated (some f) none = ◌≡◌ {A = Bool} true false
IsDated (some f) (some g) = g.modified ≤ f.modified → g ≡ f

abbrev pub AreDated : List Call → Type 0
AreDated [] = Unit
AreDated (c ∷ calls) = All (λ d. IsDated c.file d.file) calls × AreDated calls

-- What the variables say of the file that was noted.
abbrev time_of : Option LimitFile → Option ℕ
time_of none = none
time_of (some f) = some f.modified

abbrev exists : Option LimitFile → Bool
exists none = false
exists (some f) = true

abbrev Represents : World → Option LimitFile → LimitProc → Type 0
Represents w file s =
    (s.processor ≡ processor_of w file)
    × (s.modified ≡ time_of file)
    × (s.file_exists ≡ exists file)

store-Represents :
    (w : World) (after : ℕ) (f : LimitFile) (r : Result Processor) (s : LimitProc)
    → load w f ≡ r
    → Represents w (some f) (store after f r s)
unfolding store
store-Represents w after f (ok p) s e = (sym (ap or_none e), refl, refl)
store-Represents w after f (err x) s e = (sym (ap or_none e), refl, refl)

check-Represents :
    (w : World) (after : ℕ) (file later : Option LimitFile) (s : LimitProc)
    → Represents w file s
    → IsDated file later
    → Represents w later (check w after later s)
unfolding check is_unchanged
check-Represents w after none none s (p, m, e) d = elim (Bool-cases s.file_exists) [
  | inl y ↦ absurd (cc)
  | inr y ↦ simp y (p, m, refl)
]
check-Represents w after none (some g) s (p, m, e) d =
    let changed : (is_there s.processor && is_unchanged g s.modified) ≡ false = rw (m, p) refl in
    rw changed (store-Represents w after g (load w g) s refl)
check-Represents w after (some f) none s r d = absurd (cc)
check-Represents w after (some f) (some g) s (p, m, e) d =
    elim (Bool-cases (is_there s.processor && is_unchanged g s.modified)) [
      | inl y ↦
          let old : is_unchanged g (some f.modified) ≡ true =
            subst (λ x. is_unchanged g x ≡ true) m (ground (arith, y)) in
          let same : g ≡ f = d (leb→le g.modified f.modified old) in
          simp y (subst (λ x. Represents w (some x) s) (sym same) (p, m, e))
      | inr n ↦ rw n (store-Represents w after g (load w g) s refl)
    ]

update-Represents :
    (w : World) (now after : ℕ) (file later : Option LimitFile) (s : LimitProc)
    → Represents w file s
    → IsDated file later
    → Represents w (if is_recent now s.last_check then file else later) (update w now after later s)
unfolding update
update-Represents w now after file later s r d = elim (Bool-cases (is_recent now s.last_check)) [
  | inl y ↦ simp y r
  | inr n ↦ simp n (check-Represents w after file later (record s { last_check = some now }) r d)
]

if_IsDated :
    (b : Bool) (file later : Option LimitFile) (calls : List Call)
    → All (λ c. IsDated file c.file) calls
    → All (λ c. IsDated later c.file) calls
    → All (λ c. IsDated (if b then file else later) c.file) calls
if_IsDated true file later calls d e = d
if_IsDated false file later calls d e = e

run-Represents :
    (w : World) (calls : List Call) (s : LimitProc) (file : Option LimitFile)
    → Represents w file s
    → All (λ c. IsDated file c.file) calls
    → AreDated calls
    → Represents w (noted w calls s file) (run w calls s)
run-Represents w [] s file r d all = r
run-Represents w (c ∷ calls) s file r (first, d) (later, all) =
    run-Represents w calls (update w c.now c.after c.file s)
      (if is_recent c.now s.last_check then file else c.file)
      (update-Represents w c.now c.after file c.file s r first)
      (if_IsDated (is_recent c.now s.last_check) file c.file calls d later) all

none-IsDated : (calls : List Call) → All (λ c. IsDated none c.file) calls
none-IsDated [] = tt
none-IsDated (c ∷ calls) = (tt, none-IsDated calls)

-- However often and whenever the processor is asked for, it is the one that a fresh load of the file
-- that was last looked at gives (none if that fails, and one without limits if there was no file),
-- provided that the file is never removed and that a change of it makes its time of modification
-- later.
pub run-IsFresh :
    (w : World) (calls : List Call)
    → AreDated calls
    → (run w calls initial).processor ≡ processor_of w (noted w calls initial none)
run-IsFresh w calls d =
    (run-Represents w calls initial none (refl, refl, refl) (none-IsDated calls) d).0
