-- ===== src/MergeDicts.antt =====
-- `merge_dicts` of python-pscheduler/pscheduler/pscheduler/limitprocessor/limitset.py. The dict
-- that Python updates in place is the result.
pub mod Laws
use pscheduler.Common.{Option, none, some, if◌then◌else◌}
use pscheduler.Json.{Json, null, bool, num, str, arr, obj, Fields, end, field, get, put}
use pscheduler.Json.Equality.{json_eq}

unfoldable mutual
  -- The loop over the keys of the second dict.
  pub merge_dicts : Fields → Fields → Fields
  merge_dicts a end = a
  merge_dicts a (field k v b) = merge_dicts (put k (overlay (get k a) v) a) b

  -- What the loop stores for a key: the first argument is the value that the key has, if any.
  pub overlay : Option Json → Json → Json
  overlay none v = v
  overlay (some (obj a)) (obj b) = obj (merge_dicts a b)
  overlay (some w) v = if json_eq w v then w else v
