-- ===== src/ApiServer/LimitProc.antt =====
-- limitproc.py: the limit processor of the server, and the checks of the limit file that replace it.
-- Times are in microseconds.
pub mod Follows
pub mod Restored
use pscheduler.Common.{
  ℕ, ◌+◌, String, Bool, true, false, not, ◌&&◌, ltb, leb, Option, none, some, Result, ok, err,
  message, ◌>>=◌, if◌then◌else◌,
}
use pscheduler.World.{World}
use pscheduler.LimitProcessor.{Processor, inert}
use pscheduler.LimitProcessor.Load.{init}

-- A limit file: its time of modification, and what reading it gives.
pub record LimitFile : Type 0 where
  pub modified : ℕ
  pub contents : Result String

-- The module's variables. A failed load leaves no processor.
pub record LimitProc : Type 0 where
  pub processor : Option Processor
  pub file_exists : Bool
  pub last_check : Option ℕ
  pub modified : Option ℕ
  pub whynot : Option String

abbrev pub initial : LimitProc
initial = record {
  processor = some inert;
  file_exists = false;
  last_check = none;
  modified = none;
  whynot = none;
}

abbrev pub update_interval : ℕ
update_interval = 15000000

-- `LimitProcessor(this.limit_file)`.
unfoldable pub load : World → LimitFile → Result Processor
load w f = do source ← f.contents; init w (some source)

-- Whether the last check is too recent for another.
unfoldable pub is_recent : ℕ → Option ℕ → Bool
is_recent now none = false
is_recent now (some last) = ltb now (last + update_interval)

unfoldable pub is_unchanged : LimitFile → Option ℕ → Bool
is_unchanged f none = false
is_unchanged f (some old) = leb f.modified old

-- What a load leaves; `after` is the time when it has ended.
unfoldable pub store : (after : ℕ) → LimitFile → Result Processor → LimitProc → LimitProc
store after f (ok p) s = record s {
  processor = some p;
  whynot = none;
  file_exists = true;
  modified = some f.modified;
  last_check = some after;
}
store after f (err e) s = record s {
  processor = none;
  whynot = some (message e);
  file_exists = true;
  modified = some f.modified;
  last_check = some after;
}

abbrev pub is_there : Option Processor → Bool
is_there none = false
is_there (some p) = true

-- A check with the file that is found. `this.timestamp = None` sets what nothing reads.
unfoldable pub check : World → (after : ℕ) → Option LimitFile → LimitProc → LimitProc
check w after none s =
    if s.file_exists then record s { processor = some inert; file_exists = false } else s
check w after (some f) s =
    if is_there s.processor && is_unchanged f s.modified then s else store after f (load w f) s

-- `__limitproc_update`.
unfoldable pub update : World → (now after : ℕ) → Option LimitFile → LimitProc → LimitProc
update w now after file s =
    if is_recent now s.last_check
    then s
    else check w after file (record s { last_check = some now })

-- `limitprocessor()`, after its update: the processor, or the reason why there is none.
unfoldable pub limitprocessor : LimitProc → Option Processor × Option String
limitprocessor s = elim s.processor [
  | none ↦ (none, some "Limit processor is not initialized.  See system logs.")
  | some p ↦ (some p, none)
]

-- `limitproc_init`.
unfoldable pub limitproc_init : World → (now after : ℕ) → Option LimitFile → LimitProc
limitproc_init w now after file = update w now after file initial
