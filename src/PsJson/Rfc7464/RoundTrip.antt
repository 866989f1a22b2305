-- ===== src/PsJson/Rfc7464/RoundTrip.antt =====
-- Documents that are written and read back, and the end of a loop over a parser.
use Prim.Native.Char.{Char, char, code}
use Prim.Native.String
use text.Mathlib.TextLemmas.{append_assoc, append-nil, nil-append, cons-append}
use pscheduler.Common.{
  ℕ, zero, suc, ◌<◌, ◌≤◌, String, ◌≡◌, ◌∙◌, refl, sym, ap, true, false, ◌==◌, Bool-cases, inl, inr,
  arith, Option, none, some, List, [], ◌∷◌, map, length, All, Result, ok, err, >>=-eq-ok, concat,
}
use pscheduler.Json.{Json}
use pscheduler.World.{World}
use pscheduler.PsJson.{json_load_schema, json_dump, json_decomment, loaded}
use pscheduler.PsJson.Rfc7464.{
  without_newlines, emit_text, emit, emit_all, readline, document, next, more, read_all,
}

-- How many characters a text has.
abbrev pub size : String → ℕ
size String.[] = 0
size (String.◌∷◌ c s) = suc (size s)

-- What `emit_text` appends.
abbrev line : String → String
line text = concat ("\u{1e}" ∷ without_newlines text ∷ "\n" ∷ [])

one-append : (c : Char) (s : String) → String.◌++◌ (String.◌∷◌ c String.[]) s ≡ String.◌∷◌ c s
one-append c s = cons-append c String.[] s ∙ ap (String.◌∷◌ c) (nil-append s)

readline-newline : (rest : String) → readline (String.◌++◌ "\n" rest) ≡ ("\n", rest)
unfolding readline
readline-newline rest = rw (one-append (char 10 tt) rest) refl

readline-other :
    (c : Char) (s line rest : String)
    → (code c == 10) ≡ false
    → readline s ≡ (line, rest)
    → readline (String.◌∷◌ c s) ≡ (String.◌∷◌ c line, rest)
unfolding readline
readline-other c s line rest h e = rw (h, e) refl

-- The first line of a text that starts with one newline-free part and a newline.
readline-line :
    (text rest : String)
    → readline (String.◌++◌ (without_newlines text) (String.◌++◌ "\n" rest))
      ≡ (String.◌++◌ (without_newlines text) "\n", rest)
unfolding without_newlines
readline-line String.[] rest =
    rw (nil-append (String.◌++◌ "\n" rest), nil-append "\n") (readline-newline rest)
readline-line (String.◌∷◌ c s) rest = elim (Bool-cases (code c == 10)) [
  | inl e ↦ rw e (readline-line s rest)
  | inr e ↦
      rw
        (
          e,
          cons-append c (without_newlines s) (String.◌++◌ "\n" rest),
          cons-append c (without_newlines s) "\n",
        )
        (readline-other c _ _ rest e (readline-line s rest))
]

-- The line that stands for a text, before a rest, is read whole.
read-line :
    (text rest : String)
    → readline (String.◌++◌ (line text) rest)
      ≡ (String.◌∷◌ (char 30 tt) (String.◌++◌ (without_newlines text) "\n"), rest)
read-line text rest =
    let body = String.◌++◌ (without_newlines text) "\n" in
    let e : String.◌++◌ (line text) rest
        ≡ String.◌∷◌ (char 30 tt) (String.◌++◌ (without_newlines text) (String.◌++◌ "\n" rest)) =
      ap (λ t. String.◌++◌ t rest) (one-append (char 30 tt) body)
      ∙ cons-append (char 30 tt) body rest
      ∙ ap (String.◌∷◌ (char 30 tt)) (append_assoc (without_newlines text) "\n" rest) in
    ap readline e ∙ readline-other (char 30 tt) _ _ rest refl (readline-line text rest)

-- A document is read whose line is a record separator, a text that loads, and a newline.
next-line :
    (w : World) (text rest : String) (v : Json)
    → w.json_loads (String.◌++◌ (without_newlines text) "\n") ≡ ok v
    → next w true (String.◌++◌ (line text) rest) ≡ ok (some (json_decomment "#" false v), rest)
unfolding next document json_load_schema loaded
next-line w text rest v h = rw (read-line text rest, h) refl

-- The text that stands for the documents.
lines : World → List Json → String
lines w [] = ""
lines w (v ∷ vs) = String.◌++◌ (line (json_dump w v)) (lines w vs)

emit_all-lines :
    (w : World) (vs : List Json) (handle : String)
    → emit_all w vs handle ≡ ok (String.◌++◌ handle (lines w vs))
unfolding emit_all emit emit_text lines
emit_all-lines w [] handle = ap ok (sym (append-nil handle))
emit_all-lines w (v ∷ vs) handle =
    emit_all-lines w vs (String.◌++◌ handle (line (json_dump w v)))
    ∙ ap ok (append_assoc handle (line (json_dump w v)) (lines w vs))

-- What a document's text must be for it to be read again: its text without newlines loads as the
-- document.
abbrev pub Reads : World → Json → Type 0
Reads w v = w.json_loads (String.◌++◌ (without_newlines (json_dump w v)) "\n") ≡ ok v

next-end : (w : World) → next w true "" ≡ ok (none, "")
unfolding next document readline
next-end w = refl

read_all-end :
    (w : World) (calls : ℕ) (handle rest : String)
    → next w true handle ≡ ok (none, rest)
    → read_all w (suc calls) handle ≡ some (ok [])
unfolding read_all
read_all-end w calls handle rest h = rw (h, read_all) refl

read_all-more :
    (w : World) (calls : ℕ) (handle rest : String) (v : Json) (vs : List Json)
    → next w true handle ≡ ok (some v, rest)
    → read_all w calls rest ≡ some (ok vs)
    → read_all w (suc calls) handle ≡ some (ok (v ∷ vs))
unfolding read_all more
read_all-more w calls handle rest v vs h e = rw (h, read_all, e) refl

read_all-lines :
    (w : World) (vs : List Json)
    → All (Reads w) vs
    → read_all w (suc (length vs)) (lines w vs) ≡ some (ok (map (json_decomment "#" false) vs))
unfolding lines
read_all-lines w [] h = read_all-end w 0 "" "" (next-end w)
read_all-lines w (v ∷ vs) h =
    read_all-more w (suc (length vs)) _ _ _ _ (next-line w (json_dump w v) (lines w vs) v h.0)
      (read_all-lines w vs h.1)

-- Documents each of whose texts loads as the document when its newlines are gone and one ends it
-- can all be written by an emitter to an empty handle, and what a loop over a parser then reads from
-- the handle are the documents, in order and each without its comments.
pub read_all-emit_all :
    (w : World) (vs : List Json)
    → All (Reads w) vs
    → (handle : String) × (emit_all w vs "" ≡ ok handle)
      × (read_all w (suc (length vs)) handle ≡ some (ok (map (json_decomment "#" false) vs)))
read_all-emit_all w vs r =
    (lines w vs, emit_all-lines w vs "" ∙ ap ok (nil-append (lines w vs)), read_all-lines w vs r)

readline-le : (s : String) → size (readline s).1 ≤ size s
unfolding readline
readline-le String.[] = omega arith
readline-le (String.◌∷◌ c s) = elim (Bool-cases (code c == 10)) [
  | inl e ↦ rw e (omega arith)
  | inr e ↦ rw e (omega (arith, readline-le s))
]

-- What is left after a line is shorter than a text that is not empty.
readline-shorter : (c : Char) (s : String) → size (readline (String.◌∷◌ c s)).1 ≤ size s
unfolding readline
readline-shorter c s = elim (Bool-cases (code c == 10)) [
  | inl e ↦ rw e (omega arith)
  | inr e ↦ rw e (readline-le s)
]

next-shorter :
    (w : World) (handle rest : String) (v : Json)
    → next w true handle ≡ ok (some v, rest)
    → size rest < size handle
unfolding next document readline
next-shorter w String.[] rest v h = cc
next-shorter w (String.◌∷◌ c s) rest v h =
    let step = >>=-eq-ok (document w (readline (String.◌∷◌ c s)).0) _ h in
    let left : (readline (String.◌∷◌ c s)).1 ≡ rest = cc in
    omega (arith, ap size left, readline-shorter c s)

ends_more :
    (w : World) (calls : ℕ) (handle rest : String) (v : Json) (r : Result (List Json))
    → next w true handle ≡ ok (some v, rest)
    → read_all w calls rest ≡ some r
    → (r' : Result (List Json)) × (read_all w (suc calls) handle ≡ some r')
unfolding read_all more
ends_more w calls handle rest v (err e) h k = (err e, rw (h, read_all, k) refl)
ends_more w calls handle rest v (ok vs) h k = (ok (v ∷ vs), rw (h, read_all, k) refl)

ends_at :
    (w : World) (calls : ℕ) (handle : String) (step : Result (Option Json × String))
    → next w true handle ≡ step
    → ((rest : String)
        → size rest < size handle
        → (r : Result (List Json)) × (read_all w calls rest ≡ some r))
    → (r : Result (List Json)) × (read_all w (suc calls) handle ≡ some r)
unfolding read_all more
ends_at w calls handle (err e) h later = (err e, rw (h, read_all) refl)
ends_at w calls handle (ok (none, rest)) h later = (ok [], rw (h, read_all) refl)
ends_at w calls handle (ok (some v, rest)) h later =
    let (r, e) = later rest (next-shorter w handle rest v h) in
    ends_more w calls handle rest v r h e

-- A loop over a parser ends, however the text is made up: one call more than there are characters
-- are enough to reach the end of the text or an exception.
pub read_all-ends :
    (w : World) (calls : ℕ) (handle : String)
    → size handle < calls
    → (r : Result (List Json)) × (read_all w calls handle ≡ some r)
read_all-ends w zero handle h = absurd (omega arith)
read_all-ends w (suc calls) handle h =
    ends_at w calls handle _ refl (λ rest shorter. read_all-ends w calls rest (omega arith))
