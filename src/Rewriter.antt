-- ===== src/Rewriter.antt =====
-- python-pscheduler/pscheduler/pscheduler/limitprocessor/rewriter.py.
pub mod Results
use pscheduler.Common.{
  String, Bool, true, false, concat, join, str_eq, Option, none, some, List, [], ◌∷◌, Result, ok,
  err, Error, value_error, type_error, ◌||◌, ◌>>=◌, ◌>>◌, guard, or_raise, has_key, if◌then◌else◌,
}
use pscheduler.Json.{
  Json, null, bool, str, arr, obj, Items, nil, cons, Fields, end, field, get, put, items, get_item,
  as_text, as_bool, as_list, as_dict,
}
use pscheduler.PsJson.{json_dump}
use pscheduler.World.{World}
use pscheduler.Proposal.{Proposal, hints_json}
use pscheduler.JqFilter
use pscheduler.JqFilter.{Filter, run}
use pscheduler.Limit.Jq.{script_text, get_or_empty}
use pscheduler.StringMatcher.{is_in}
use pscheduler.Limit.TestType.{texts, task_type}

abbrev pub private_key : String
private_key = "__REWRITER_PRIVATE__"

-- The functions that are put in front of the script.
script_lines : String → List String
script_lines script =
    "def classifiers:"
    ∷ concat ("  ." ∷ private_key ∷ ".classifiers" ∷ [])
    ∷ ";"
    ∷ "def classifiers_has($value):"
    ∷ concat ("  ." ∷ private_key ∷ ".classifiers" ∷ [])
    ∷ "  | contains([$value])"
    ∷ ";"
    ∷ "def change($message):"
    ∷ concat ("  ." ∷ private_key ∷ ".changed = true" ∷ [])
    ∷ "  | if $message != null"
    ∷ "    then"
    ∷ concat ("      ." ∷ private_key ∷ ".diags += [ $message | tostring ]" ∷ [])
    ∷ "    else"
    ∷ "      ."
    ∷ "    end"
    ∷ ";"
    ∷ "def hint($name):"
    ∷ concat ("  ." ∷ private_key ∷ ".hints[$name]" ∷ [])
    ∷ ";"
    ∷ "def reject($message):"
    ∷ "  error(\"Task rejected: \" + ($message | tostring))"
    ∷ ";"
    ∷ script
    ∷ []

-- A list of texts as JSON.
unfoldable pub text_items : List String → Items
text_items [] = nil
text_items (s ∷ ss) = cons (str s) (text_items ss)

unfoldable pub construct : World → Json → Result Filter
unfolding script_lines text_items
construct w transform = do
  s ← get_item transform "script"
  script ← script_text s
  m ← as_dict transform
  args ← get_or_empty "args" transform
  JqFilter.construct w (obj (put "script" (arr (text_items (script_lines script))) m)) args false
      true

-- The rewriter's private data, as the script first sees it.
unfoldable pub private_data : Proposal → List String → Json
unfolding text_items
private_data p classifiers = obj (
    field "classifiers" (arr (text_items classifiers)) (
      field "changed" (bool false)
        (field "diags" (arr nil) (field "hints" (hints_json p.hints) end))))

text_of : Json → Option String
text_of (str s) = some s
text_of v = none

test_type : Json → Option String
unfolding text_of
test_type (obj t) = elim (get "spec" t) [
  | none ↦ none
  | some spec ↦ elim (get "type" t) [ none ↦ none | some v ↦ text_of v ]
]
test_type v = none

-- The type of the result's test, if the result has a test with a type that is a text and a spec.
unfoldable pub result_type : Fields → Option String
unfolding test_type
result_type m = elim (get "test" m) [ none ↦ none | some v ↦ test_type v ]

-- `result["test"]["type"] != proposal["task"]["test"]["type"]`, turned round.
same_type : String → Json → Bool
same_type s (str t) = str_eq s t
same_type s v = false

-- `del m[key]`.
unfoldable pub remove : String → Fields → Fields
remove k end = end
remove k (field j v m) = let rest = remove k m in if str_eq j k then rest else field j v rest

-- What a rewriter returns.
pub record Rewritten : Type 0 where
  pub changed : Bool
  pub task : Json
  pub diags : List String

abbrev pub invalid_result : World → Json → Error
invalid_result w v = value_error (concat ("Invalid rewriter result:\n" ∷ json_dump w v ∷ []))

mentions_test : List Json → Bool
unfolding same_type
mentions_test [] = false
mentions_test (v ∷ vs) = same_type "test" v || mentions_test vs

-- What the first checks make of a result that is no dict: `"test" not in result` looks into texts
-- and lists too.
unfoldable pub result_dict : World → Json → Result Fields
unfolding mentions_test
result_dict w (obj m) = ok m
result_dict w (str s) = err (
    if is_in "test" s
    then type_error "string indices must be integers"
    else invalid_result w (str s))
result_dict w (arr vs) = err (
    if mentions_test (items vs)
    then type_error "list indices must be integers or slices, not str"
    else invalid_result w (arr vs))
result_dict w v = err (type_error "the result is not iterable")

-- The checks of the script's result, and the split of the private data from the task.
unfoldable pub accept : World → Proposal → Fields → Result Rewritten
unfolding result_type same_type texts
accept w p result = do
  new_type ← or_raise (result_type result) (invalid_result w (obj result))
  old_type ← task_type p
  guard (same_type new_type old_type) (invalid_result w (obj result))
  data' ← get_item (obj result) private_key
  c ← get_item data' "changed"
  changed ← as_bool c
  d ← get_item data' "diags"
  ds ← as_list d
  diags ← texts ds
  ok (record { changed = changed; task = obj (remove private_key result); diags = diags })

unfoldable pub rewrite : World → Filter → Proposal → List String → Result Rewritten
rewrite w f p classifiers = do
  task ← as_dict p.task
  v ← run w f (obj (put private_key (private_data p classifiers) task))
  result ← result_dict w v
  accept w p result
