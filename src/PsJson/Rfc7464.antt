-- ===== src/PsJson/Rfc7464.antt =====
-- `RFC7464Emitter` and `RFC7464Parser` of python-pscheduler/pscheduler/pscheduler/psjson.py: JSON
-- documents as lines, each after a record separator. A handle is the text that is written, or that is
-- still to be read; whether select finds it ready in time is an argument.
pub mod RoundTrip
use Prim.Native.Char.{Char, code}
use Prim.Native.String
use pscheduler.Common.{
  String, Bool, true, concat, ◌==◌, Option, none, some, List, [], ◌∷◌, Result, ok, err, value_error,
  runtime_error, guard, ◌>>=◌, ◌>>◌, if◌then◌else◌, ℕ, zero, suc, ◌≡◌, refl,
}
use pscheduler.Json.{Json}
use pscheduler.World.{World}
use pscheduler.PsJson.{json_load, json_dump}

-- `text.replace("\n", "")`.
unfoldable pub without_newlines : String → String
without_newlines String.[] = String.[]
without_newlines (String.◌∷◌ c s) =
    let rest = without_newlines s in if code c == 10 then rest else String.◌∷◌ c rest

-- `emit_text`: what the handle has been written to.
unfoldable pub emit_text : (ready : Bool) → String → String → Result String
emit_text ready text handle = do
  guard ready (runtime_error "Timed out waiting for write")
  ok (concat (handle ∷ "\u{1e}" ∷ without_newlines text ∷ "\n" ∷ []))

-- The emitter's `__call__`.
unfoldable pub emit : World → (ready : Bool) → Json → String → Result String
emit w ready json handle = emit_text ready (json_dump w json) handle

unfoldable pub emit_all : World → List Json → String → Result String
emit_all w [] handle = ok handle
emit_all w (v ∷ vs) handle = do more ← emit w true v handle; emit_all w vs more

-- `readline`: a line with its newline, and what is left.
unfoldable pub readline : String → String × String
readline String.[] = (String.[], String.[])
readline (String.◌∷◌ c s) =
    let (line, rest) = readline s in
    if code c == 10 then (String.◌∷◌ c String.[], s) else (String.◌∷◌ c line, rest)

-- The document of a line that was read.
unfoldable pub document : World → String → Result (Option Json)
document w String.[] = ok none
document w (String.◌∷◌ c s) =
    if code c == 30
    then (do v ← json_load w s; ok (some v))
    else err (
        value_error
          (concat ("Line '" ∷ String.◌∷◌ c s ∷ "' did not start with record separator" ∷ [])))

-- The parser's `__call__`: the next document, none at the end, and what is left to read.
unfoldable pub next : World → (ready : Bool) → String → Result (Option Json × String)
next w ready handle = do
  guard ready (runtime_error "Timed out waiting for read")
  let (line, rest) = readline handle
  v ← document w line
  ok (v, rest)

-- The loop goes on after a document.
more : Json → Option (Result (List Json)) → Option (Result (List Json))
more v none = none
more v (some (err e)) = some (err e)
more v (some (ok vs)) = some (ok (v ∷ vs))

-- `for json in parser`, in at most the given number of calls: the documents up to the end of the
-- text or to the first exception, or none if the calls were not enough.
unfoldable pub read_all : World → ℕ → String → Option (Result (List Json))
unfolding more
read_all w zero handle = none
read_all w (suc calls) handle = elim (next w true handle) [
  | err e ↦ some (err e)
  | ok (none, rest) ↦ some (ok [])
  | ok (some v, rest) ↦ more v (read_all w calls rest)
]

line_test : readline "a\nb" ≡ ("a\n", "b")
unfolding readline
line_test = refl
