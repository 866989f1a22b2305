-- ===== src/LimitSet/Clones.antt =====
-- What a cloned limit takes from its source.
use pscheduler.Common.{String, ◌≡◌, none, some, ok, arith, lookup, AllDistinct}
use pscheduler.Json.{Json, str, obj, Fields, get, get_item, keys, as_text, as_dict}
use pscheduler.MergeDicts.{merge_dicts}
use pscheduler.MergeDicts.Laws.{merged, get-merge_dicts}
use pscheduler.LimitSet.{LimitSet, LimitEntry, cloned, resolve}

-- A limit that clones one in the set, with a description and data of its own, takes the source's
-- type, holds for each key of the data the overlay of the source's value and its own, and is not
-- inverted, whatever its own `invert` and its source's say.
resolve_clone :
    (limits : LimitSet) (name source : String) (m old new : Fields) (l : LimitEntry)
    (description : Json)
    → get "clone" m ≡ some (str source)
    → lookup source limits ≡ some l
    → get "description" m ≡ some description
    → l.config ≡ obj old
    → get "data" m ≡ some (obj new)
    → AllDistinct (keys new)
    → (data' : Fields) × (resolve limits name (obj m)
        ≡ ok (record { type = l.type; config = obj data'; invert = none }))
      × ((k : String) → get k data' ≡ merged (get k old) (get k new))
unfolding resolve cloned get_item as_text as_dict
resolve_clone limits name source m old new l description a b c d e distinct =
    (merge_dicts old new, ground arith, λ k. get-merge_dicts k old new distinct)
