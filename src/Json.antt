-- ===== src/Json.antt =====
-- JSON values as the Python code holds them: `None`, booleans, integers, texts, lists, and dicts in
-- insertion order. Fractional numbers are not represented.
pub mod Equality
use pscheduler.Common.{
  ℕ, String, Bool, true, false, Option, none, some, str_eq, if◌then◌else◌, Result, ok, err,
  key_error, type_error, arith, ◌≡◌, ◌==◌, ◌&&◌, List, [], ◌∷◌, suc,
}

-- `negsuc n` is -(n + 1).
pub data ℤ : Type 0 where
  pos : ℕ → ℤ
  negsuc : ℕ → ℤ

mutual
  pub data Json : Type 0 where
    null : Json
    bool : Bool → Json
    num : ℤ → Json
    str : String → Json
    arr : Items → Json
    obj : Fields → Json

  pub data Items : Type 0 where
    nil : Items
    cons : Json → Items → Items

  pub data Fields : Type 0 where
    end : Fields
    field : String → Json → Fields → Fields

-- `d.get(k)`, with no value for a key that is not there.
abbrev pub get : String → Fields → Option Json
get k end = none
get k (field j v m) = if str_eq j k then some v else get k m

-- `d[k] = v`: an old key keeps its place.
abbrev pub put : String → Json → Fields → Fields
put k v end = field k v end
put k v (field j w m) = let rest = put k v m in if str_eq j k then field j v m else field j w rest

abbrev pub keys : Fields → List String
keys end = []
keys (field j v m) = j ∷ keys m

-- `v[k]`: a missing key is a KeyError; what is no dict cannot be indexed by a text.
unfoldable pub get_item : Json → String → Result Json
get_item (obj m) k = elim (get k m) [ none ↦ err (key_error k) | some v ↦ ok v ]
get_item v k = err (type_error "not subscriptable by a text")

pub item-some : (k : String) (m : Fields) (v : Json) → get k m ≡ some v → get_item (obj m) k ≡ ok v
unfolding get_item
item-some k m v h = ground arith

pub item-none : (k : String) (m : Fields) → get k m ≡ none → get_item (obj m) k ≡ err (key_error k)
unfolding get_item
item-none k m h = ground arith

-- The values that the schemas let through where the code wants a text, a boolean or a list.
unfoldable pub as_text : Json → Result String
as_text (str s) = ok s
as_text v = err (type_error "not a text")

unfoldable pub as_bool : Json → Result Bool
as_bool (bool b) = ok b
as_bool v = err (type_error "not a boolean")

unfoldable pub as_number : Json → Result ℕ
as_number (num (pos n)) = ok n
as_number v = err (type_error "not a number")

abbrev pub items : Items → List Json
items nil = []
items (cons v vs) = v ∷ items vs

unfoldable pub as_list : Json → Result (List Json)
as_list (arr vs) = ok (items vs)
as_list v = err (type_error "not a list")

unfoldable pub as_dict : Json → Result Fields
as_dict (obj m) = ok m
as_dict v = err (type_error "not a dict")
