-- ===== src/PsJson.antt =====
-- python-pscheduler/pscheduler/pscheduler/psjson.py: JSON as the program reads and writes it. What
-- `json.loads` and `json.dumps` do is in `World`.
pub mod Comments
pub mod Rfc7464
use pscheduler.Common.{
  ℕ, suc, String, Bool, true, false, concat, decimal, ltb, str_eq, Option, none, some, List, [],
  ◌∷◌, Result, ok, err, Error, value_error, ◌>>=◌, ◌>>◌, if◌then◌else◌, starts_with,
}
use pscheduler.Json.{
  ℤ, pos, negsuc, Json, null, bool, num, str, arr, obj, Items, nil, cons, Fields, end, field, get,
  as_dict,
}
use pscheduler.Json.Equality.{json_eq}
use pscheduler.World.{World}

unfoldable mutual
  pub json_decomment : String → Bool → Json → Json
  json_decomment prefix null' (arr xs) = arr (decomment_items prefix null' xs)
  json_decomment prefix null' (obj m) = obj (decomment_fields prefix null' m)
  json_decomment prefix null' v = v

  pub decomment_items : String → Bool → Items → Items
  decomment_items prefix null' nil = nil
  decomment_items prefix null' (cons v vs) =
      cons (json_decomment prefix null' v) (decomment_items prefix null' vs)

  pub decomment_fields : String → Bool → Fields → Fields
  decomment_fields prefix null' end = end
  decomment_fields prefix null' (field item v m) =
      let rest = decomment_fields prefix null' m in
      let kept = json_decomment prefix null' v in
      if starts_with prefix item
      then (if null' then field item null rest else rest)
      else field item kept rest

unfoldable mutual
  pub json_substitute : Json → Json → Json → Json
  json_substitute value replacement (arr xs) = arr (substitute_items value replacement xs)
  json_substitute value replacement (obj m) = obj (substitute_fields value replacement m)
  json_substitute value replacement v = v

  pub substitute_items : Json → Json → Items → Items
  substitute_items value replacement nil = nil
  substitute_items value replacement (cons v vs) =
      cons (json_substitute value replacement v) (substitute_items value replacement vs)

  pub substitute_fields : Json → Json → Fields → Fields
  substitute_fields value replacement end = end
  substitute_fields value replacement (field item v m) =
      let rest = substitute_fields value replacement m in
      let inner = json_substitute value replacement v in
      field item (if json_eq v value then replacement else inner) rest

-- `schema` of a dict: 1 if it is not there; a boolean is an int in Python.
schema_of : Json → Result ℤ
schema_of (obj m) = elim (get "schema" m) [
  | none ↦ ok (pos 1)
  | some v ↦ elim v [
    | num z ↦ ok z
    | bool b ↦ ok (pos (if b then 1 else 0))
    | _ ↦ err (value_error "Schema value must be an integer")
  ]
]
schema_of v = err (value_error "JSON must be an object")

-- `schema > max_schema`, for a maximum that is no negative number.
above : ℤ → ℕ → Bool
above (pos n) max_schema = ltb max_schema n
above (negsuc n) max_schema = false

-- `%d` of a schema that is too high.
schema_text : ℤ → String
schema_text (pos n) = decimal n
schema_text (negsuc n) = concat ("-" ∷ decimal (suc n) ∷ [])

unfoldable pub json_check_schema : Json → ℕ → Result (Unit {0})
unfolding schema_of above schema_text
json_check_schema json max_schema = do
  schema ← schema_of json
  if above schema max_schema
      then err (
          value_error (
            concat (
              "Schema version "
              ∷ schema_text schema
              ∷ " is not supported (highest is "
              ∷ decimal max_schema
              ∷ ")"
              ∷ [])))
      else ok tt

-- The exception that `json_load` makes of a parser's.
unfoldable pub loaded : Result Json → Result Json
loaded (err (value_error e)) = err (value_error (concat ("Invalid JSON: " ∷ e ∷ [])))
loaded r = r

-- `json_load(text, max_schema=max_schema)`.
unfoldable pub json_load_schema : World → Option ℕ → String → Result Json
json_load_schema w max_schema text = do
  json_in ← loaded (w.json_loads text)
  elim max_schema [ none ↦ ok tt | some n ↦ json_check_schema json_in n ]
  ok (json_decomment "#" false json_in)

-- `json_load(text)`.
abbrev pub json_load : World → String → Result Json
json_load w text = json_load_schema w none text

-- `json_dump(v)`.
abbrev pub json_dump : World → Json → String
json_dump w v = w.json_dumps v
