-- ===== src/MergeDicts/Laws.antt =====
-- What a merged dict holds for each key, and that merging makes no key twice.
use pscheduler.Common.{
  ◌≡◌, refl, String, false, ◌||◌, Option, none, some, arith, eq_iff, str_eq, contains, AllDistinct,
  if◌then◌else◌, ◌∙◌,
}
use pscheduler.Json.{Json, Fields, end, field, get, put, keys}
use pscheduler.MergeDicts.{merge_dicts, overlay}

pub get-put :
    (k j : String) (v : Json) (m : Fields)
    → get j (put k v m) ≡ (if str_eq k j then some v else get j m)
get-put k j v end = refl
get-put k j v (field i w m) = ground (arith, eq_iff k j, eq_iff i k, eq_iff i j, get-put k j v m)

contains-keys-put :
    (k j : String) (v : Json) (m : Fields)
    → contains (keys (put k v m)) j ≡ (str_eq k j || contains (keys m) j)
contains-keys-put k j v end = refl
contains-keys-put k j v (field i w m) =
    ground (arith, eq_iff k j, eq_iff i k, eq_iff i j, contains-keys-put k j v m)

put-AllDistinct :
    (k : String) (v : Json) (m : Fields) → AllDistinct (keys m) → AllDistinct (keys (put k v m))
put-AllDistinct k v end d = (refl, tt)
put-AllDistinct k v (field i w m) d =
    ground (arith, eq_iff i k, eq_iff k i, contains-keys-put k i v m, put-AllDistinct k v m d.1)

get_of_absent : (k : String) (m : Fields) → contains (keys m) k ≡ false → get k m ≡ none
get_of_absent k end h = refl
get_of_absent k (field i w m) h = ground (arith, get_of_absent k m)

-- The value of a key after the merge, from its values before.
abbrev pub merged : Option Json → Option Json → Option Json
merged o none = o
merged o (some v) = some (overlay o v)

-- Where the second dict has each key once, as a dict has, the merged dict gives for every key the
-- first dict's value if the second has none, the second's value if the first has none, and else the
-- overlay of the two, whatever the order of the keys.
pub get-merge_dicts :
    (k : String) (a b : Fields)
    → AllDistinct (keys b)
    → get k (merge_dicts a b) ≡ merged (get k a) (get k b)
unfolding merge_dicts
get-merge_dicts k a end d = refl
get-merge_dicts k a (field j v b) d = get-merge_dicts k (put j (overlay (get j a) v) a) b d.1 ∙ step
  where
    step :
        merged (get k (put j (overlay (get j a) v) a)) (get k b)
        ≡ merged (get k a) (get k (field j v b))
    step = ground (arith, eq_iff j k, get-put j k (overlay (get j a) v) a, get_of_absent k b)

-- A dict without repeated keys stays one under a merge.
pub merge_dicts-AllDistinct :
    (a b : Fields) → AllDistinct (keys a) → AllDistinct (keys (merge_dicts a b))
unfolding merge_dicts
merge_dicts-AllDistinct a end d = d
merge_dicts-AllDistinct a (field j v b) d =
    merge_dicts-AllDistinct (put j (overlay (get j a) v) a) b (put-AllDistinct j _ a d)
