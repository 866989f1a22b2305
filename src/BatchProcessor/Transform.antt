-- ===== src/BatchProcessor/Transform.antt =====
-- `__apply_transform` of `__prep_job`.
pub mod Faults
use Prim.Native.Char.{Char}
use Prim.Native.String
use pscheduler.Common.{
  String, Bool, false, concat, join, Option, none, some, List, [], ◌∷◌, Result, ok, err, type_error,
  value_error, name_error, ◌>>=◌,
}
use pscheduler.Json.{Json, null, bool, num, str, arr, obj, Items, items, Fields, get_item}
use pscheduler.World.{World}
use pscheduler.Limit.TestType.{texts}
use pscheduler.JqFilter
use pscheduler.JqFilter.{Filter, run}

-- The texts that a loop over a text gives.
unfoldable pub characters : String → List String
characters String.[] = []
characters (String.◌∷◌ c s) = String.◌∷◌ c String.[] ∷ characters s

-- `"\n".join(script)`, which takes a text apart too.
unfoldable pub joined : Json → Result String
joined (arr vs) = do lines ← texts (items vs); ok (join "\n" lines)
joined (str s) = ok (join "\n" (characters s))
joined v = err (type_error "can only join an iterable")

-- The body of the `try`.
unfoldable pub attempt : World → Json → Json → Json → Result Json
attempt w transform args v = do
  s ← get_item transform "script"
  script ← joined s
  filterer ← JqFilter.construct w (str script) args false false
  run w filterer v

-- The handlers: the second names `jqfilter`, which is no name of the module, so that an exception
-- which is no ValueError ends as a NameError.
unfoldable pub handled : String → Result Json → Result Json
handled transform_location (ok v) = ok v
handled transform_location (err (value_error e)) =
    err (value_error (concat ("At " ∷ transform_location ∷ ": " ∷ e ∷ [])))
handled transform_location (err e) = err (name_error "name 'jqfilter' is not defined")

unfoldable pub apply_transform : World → Json → Option Json → Json → String → Result Json
apply_transform w v none args transform_location = ok v
apply_transform w v (some transform) args transform_location =
    handled transform_location (attempt w transform args v)
