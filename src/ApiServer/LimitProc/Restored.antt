-- ===== src/ApiServer/LimitProc/Restored.antt =====
-- What happens to a limit file that is removed and comes back as old as it was.
use pscheduler.Common.{
  ℕ, ◌≤◌, ◌≡◌, refl, Bool, true, false, ◌&&◌, le→leb, Bool-cases, inl, inr, Option, none, some,
  List, [], ◌∷◌, All, ok,
}
use pscheduler.World.{World}
use pscheduler.Proposal.{Proposal}
use pscheduler.LimitProcessor.{inert, Judgement, process}
use pscheduler.ApiServer.LimitProc.{
  LimitFile, LimitProc, is_recent, is_unchanged, is_there, check, update,
}
use pscheduler.ApiServer.LimitProc.Follows.{Call, run}

-- The file is there, and no newer than a time.
abbrev pub IsOld : ℕ → Option LimitFile → Type 0
IsOld m none = ◌≡◌ {A = Bool} true false
IsOld m (some f) = f.modified ≤ m

-- No limits, while the file of that time is still remembered.
abbrev IsOff : ℕ → LimitProc → Type 0
IsOff m s = (s.processor ≡ some inert) × (s.modified ≡ some m)

check-IsOff :
    (w : World) (after m : ℕ) (file : Option LimitFile) (s : LimitProc)
    → IsOff m s
    → IsOld m file
    → IsOff m (check w after file s)
unfolding check is_unchanged
check-IsOff w after m none s o h = absurd (cc)
check-IsOff w after m (some f) s (p, e) h =
    let unchanged : (is_there s.processor && is_unchanged f s.modified) ≡ true =
      rw (p, e) (le→leb f.modified m h) in
    simp unchanged (p, e)

update-IsOff :
    (w : World) (now after m : ℕ) (file : Option LimitFile) (s : LimitProc)
    → IsOff m s
    → IsOld m file
    → IsOff m (update w now after file s)
unfolding update
update-IsOff w now after m file s o h = elim (Bool-cases (is_recent now s.last_check)) [
  | inl y ↦ simp y o
  | inr n ↦ simp n (check-IsOff w after m file (record s { last_check = some now }) o h)
]

run-IsOff :
    (w : World) (m : ℕ) (calls : List Call) (s : LimitProc)
    → IsOff m s
    → All (λ c. IsOld m c.file) calls
    → IsOff m (run w calls s)
run-IsOff w m [] s o h = o
run-IsOff w m (c ∷ calls) s o (first, h) =
    run-IsOff w m calls (update w c.now c.after c.file s)
      (update-IsOff w c.now c.after m c.file s o first) h

removed-IsOff :
    (w : World) (now after m : ℕ) (s : LimitProc)
    → s.file_exists ≡ true
    → s.modified ≡ some m
    → is_recent now s.last_check ≡ false
    → IsOff m (update w now after none s)
unfolding update check
removed-IsOff w now after m s there e n = simp (n, there) (refl, e)

-- Once a check has found the limit file removed, and from then on a file is there that is no newer
-- than the one that was removed, the limits stay off: every proposal passes, however often the file
-- is looked for.
pub restored_file_ignored :
    (w : World) (now after m : ℕ) (s : LimitProc) (calls : List Call) (p : Proposal)
    (rewrite prioritize : Bool)
    → s.file_exists ≡ true
    → s.modified ≡ some m
    → is_recent now s.last_check ≡ false
    → All (λ c. IsOld m c.file) calls
    → ((run w calls (update w now after none s)).processor ≡ some inert)
      × ((j : Judgement) × (process w inert p rewrite prioritize ≡ ok j) × (j.passed ≡ true))
unfolding process
restored_file_ignored w now after m s calls p rewrite prioritize there e n h = (
  (run-IsOff w m calls (update w now after none s) (removed-IsOff w now after m s there e n) h).0,
  (_, refl, refl),
)
