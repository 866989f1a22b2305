-- ===== src/Prioritizer.antt =====
-- python-pscheduler/pscheduler/pscheduler/limitprocessor/prioritizer.py.
use pscheduler.Common.{
  String, concat, List, [], ◌∷◌, Result, ok, err, value_error, true, false, key_error, ◌>>=◌,
}
use pscheduler.Json.{ℤ, pos, Json, num, arr, obj, nil, end, field, put, get_item, as_list, as_dict}
use pscheduler.World.{World}
use pscheduler.JqFilter
use pscheduler.JqFilter.{Filter, run}
use pscheduler.Limit.Jq.{script_text, get_or_empty}
use pscheduler.Limit.TestType.{texts}
use pscheduler.Rewriter.{text_items}

abbrev private_key : String
private_key = "__PRIORITIZER_PRIVATE__"

abbrev default_priority : ℤ
default_priority = pos 0

-- The functions that are put in front of the script.
script_lines : String → List String
script_lines script =
    "def classifiers:"
    ∷ concat ("  ." ∷ private_key ∷ ".classifiers" ∷ [])
    ∷ ";"
    ∷ "def classifiers_has($value):"
    ∷ concat ("  ." ∷ private_key ∷ ".classifiers" ∷ [])
    ∷ "  | contains([$value])"
    ∷ ";"
    ∷ "def default: 0;"
    ∷ "def requested:"
    ∷ "  .priority"
    ∷ ";"
    ∷ "def note($message):"
    ∷ "  if $message != null"
    ∷ "  then"
    ∷ concat (
        "    ." ∷ private_key ∷ ".diags += " ∷ "       [ \"\\($message | tostring)\" ]" ∷ "  else"
        ∷ [])
    ∷ "    ."
    ∷ "  end"
    ∷ ";"
    ∷ "def priority:"
    ∷ concat ("  ." ∷ private_key ∷ ".priority" ∷ [])
    ∷ ";"
    ∷ "def set($value; $message):"
    ∷ "  # TODO: Must be an integer"
    ∷ concat ("  ." ∷ private_key ∷ ".priority = $value" ∷ [])
    ∷ "  | note(\"\\($message)  (Set to \\($value))\")"
    ∷ ";"
    ∷ "def adjust($value; $message):"
    ∷ "  # TODO: Must be an integer"
    ∷ concat ("  ." ∷ private_key ∷ ".priority += $value" ∷ [])
    ∷ "  | note(\"\\($message)  (\\(if $value > 0 then \"+\" else \"-\" end)\\($value | length))\")"
    ∷ ";"
    ∷ script
    ∷ []

unfoldable pub construct : World → Json → Result Filter
unfolding script_lines
construct w transform = do
  s ← get_item transform "script"
  script ← script_text s
  m ← as_dict transform
  args ← get_or_empty "args" transform
  JqFilter.construct w (obj (put "script" (arr (text_items (script_lines script))) m)) args false
      true

private_data : List String → Json
private_data classifiers = obj (
    field "classifiers" (arr (text_items classifiers))
      (field "priority" (num default_priority) (field "diags" (arr nil) end)))

-- What a prioritizer returns.
pub record Priority : Type 0 where
  pub value : Json
  pub diags : List String

-- `except KeyError: raise ValueError(...)` around the two look-ups.
destroyed : Result Json → Result Json
destroyed (err (key_error k)) = err (value_error "Prioritizer destroyed private data")
destroyed r = r

unfoldable pub prioritize : World → Filter → Json → List String → Result Priority
unfolding private_data destroyed texts
prioritize w f task classifiers = do
  m ← as_dict task
  result ← run w f (obj (put private_key (private_data classifiers) m))
  value ← destroyed (do data' ← get_item result private_key; get_item data' "priority")
  d ← destroyed (do data' ← get_item result private_key; get_item data' "diags")
  ds ← as_list d
  diags ← texts ds
  ok (record { value = value; diags = diags })
