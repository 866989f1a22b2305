-- ===== src/JqFilter.antt =====
-- `JQFilter` of python-pscheduler/pscheduler/pscheduler/jqfilter.py. What pyjq does with a script's
-- text, and `_groom`, are functions of `World`.
use pscheduler.Common.{
  String, Bool, concat, join, map, str_eq, none, some, List, [], ◌∷◌, Result, ok, err, index_error,
  type_error, value_error, ◌>>=◌, ◌>>◌, if◌then◌else◌,
}
use pscheduler.Json.{Json, str, arr, obj, nil, Fields, end, field, get, as_bool, items}
use pscheduler.World.{World}

pub record Filter : Type 0 where
  pub script : String
  pub output_raw : Bool

-- `str(v)`.
unfoldable pub shown : World → Json → String
shown w (str s) = s
shown w v = w.to_text v

-- The text of a filter_spec that is no dict.
unfoldable pub spec_text : World → Json → Result String
unfolding shown
spec_text w (str s) = ok s
spec_text w (arr vs) = ok (join "\n" (map (shown w) (items vs)))
spec_text w v = err (value_error "Filter spec must be plain text, list or dict")

-- A dict has the script and the choice of raw output in it.
unfoldable pub spec : World → Json → Bool → Result (String × Bool)
spec w (obj m) output_raw = do
  raw ← elim (get "output-raw" m) [ none ↦ ok output_raw | some v ↦ as_bool v ]
  text ← spec_text w (elim (get "script" m) [ none ↦ str "." | some v ↦ v ])
  ok (text, raw)
spec w v output_raw = do text ← spec_text w v; ok (text, output_raw)

bindings : World → Fields → List String
bindings w end = []
bindings w (field name value m) =
    concat (w.json_dumps value ∷ " as $" ∷ name ∷ " | " ∷ []) ∷ bindings w m

-- The arguments as statements in front of the script: none for whatever has the length 0.
unfoldable pub arg_lines : World → Json → Result String
unfolding bindings
arg_lines w (obj m) = ok (concat (bindings w m))
arg_lines w (arr nil) = ok ""
arg_lines w (str s) =
    if str_eq s "" then ok "" else err (type_error "'str' object has no attribute 'items'")
arg_lines w v = err (type_error "no items")

-- `JQFilter(filter_spec, args, output_raw, groom)`.
unfoldable pub construct : World → Json → Json → (output_raw groom : Bool) → Result Filter
construct w filter_spec args output_raw groom = do
  (text, raw) ← spec w filter_spec output_raw
  lines ← arg_lines w args
  let full = concat (lines ∷ text ∷ [])
  let script = if groom then w.groom full else full
  w.jq_compile script
  ok (record { script = script; output_raw = raw })

-- What a filter returns: a list, or a text for raw output.
pub data Output : Type 0 where
  many : List Json → Output
  raw : String → Output

-- `filter(json)`.
unfoldable pub call : World → Filter → Json → Result Output
call w f json = do
  results ← w.jq_run f.script json
  ok (if f.output_raw then raw (join "\n" (map (shown w) results)) else many results)

-- `[0]` of what a filter returns: of a text, its first character.
unfoldable pub first : Output → Result Json
first (many []) = err (index_error "list index out of range")
first (many (v ∷ vs)) = ok v
first (raw String.[]) = err (index_error "string index out of range")
first (raw (String.◌∷◌ c s)) = ok (str (String.◌∷◌ c String.[]))

-- `filter(json)[0]`.
unfoldable pub run : World → Filter → Json → Result Json
run w f json = do output ← call w f json; first output
