-- ===== src/BatchProcessor/Transform/Faults.antt =====
-- Scripts and exceptions of transforms that do not come out as the code means them to.
use Prim.Native.Char.{Char}
use Prim.Native.String
use text.Mathlib.TextLemmas.{length-append, length-cons, length-nil}
use pscheduler.Common.{
  suc, ◌+◌, ◌*◌, String, ◌≡◌, ◌≢◌, ap, refl, join, some, ok, err, name_error, jq_error, arith,
}
use pscheduler.Json.{Json, str}
use pscheduler.World.{World}
use pscheduler.BatchProcessor.Transform.{characters, joined, attempt, handled, apply_transform}

-- A text taken apart and joined with newlines has a newline between any two characters.
spread_count :
    (c : Char) (s : String)
    → String.count (join "\n" (characters (String.◌∷◌ c s))) ≡ suc (2 * String.count s)
unfolding characters
spread_count c String.[] = omega (arith, length-cons c String.[], length-nil)
spread_count c (String.◌∷◌ d s) = omega (
  arith,
  spread_count d s,
  length-append (String.◌∷◌ c String.[])
      (String.◌++◌ "\n" (join "\n" (characters (String.◌∷◌ d s)))),
  length-append "\n" (join "\n" (characters (String.◌∷◌ d s))),
  length-cons c String.[],
  length-nil,
  length-cons d s,
)

-- A script that is given as one text of two characters or more is compiled with a newline between
-- any two of them, and so is not the script that was given.
joined-text :
    (c d : Char) (s script : String)
    → joined (str (String.◌∷◌ c (String.◌∷◌ d s))) ≡ ok script
    → (String.count script ≡ 3 + 2 * String.count s) × (script ≢ String.◌∷◌ c (String.◌∷◌ d s))
unfolding joined
joined-text c d s script h =
    let same : join "\n" (characters (String.◌∷◌ c (String.◌∷◌ d s))) ≡ script = cc in
    let count : String.count script ≡ 3 + 2 * String.count s =
      omega (arith, ap String.count same, spread_count c (String.◌∷◌ d s), length-cons d s) in
    (
      count,
      λ e. omega (arith, count, ap String.count e, length-cons c (String.◌∷◌ d s), length-cons d s),
    )

-- An exception of a transform that is no ValueError, such as a runtime error of the script, comes
-- out as a NameError that says nothing of it.
runtime_error_lost :
    (w : World) (v transform args : Json) (location text : String)
    → attempt w transform args v ≡ err (jq_error text)
    → apply_transform w v (some transform) args location
      ≡ err (name_error "name 'jqfilter' is not defined")
unfolding apply_transform handled
runtime_error_lost w v transform args location text h = rw h refl
