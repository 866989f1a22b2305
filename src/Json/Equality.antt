-- ===== src/Json/Equality.antt =====
-- Python's `==` on JSON values: by structure, a dict whatever the order of its keys, and a boolean
-- equal to the number 0 or 1 that it stands for.
use pscheduler.Common.{ℕ, Bool, true, false, ◌&&◌, ◌==◌, str_eq, none, some, length}
use pscheduler.Json.{
  ℤ, pos, negsuc, Json, null, bool, num, str, arr, obj, Items, nil, cons, Fields, end, field, get,
  keys,
}

number_of : Bool → ℕ
number_of true = 1
number_of false = 0

bool_eq : Bool → Bool → Bool
unfolding number_of
bool_eq a b = number_of a == number_of b

int_eq : ℤ → ℤ → Bool
int_eq (pos a) (pos b) = a == b
int_eq (negsuc a) (negsuc b) = a == b
int_eq a b = false

-- The cases with no list and no dict.
scalar_eq : Json → Json → Bool
unfolding bool_eq int_eq
scalar_eq null null = true
scalar_eq (bool a) (bool b) = bool_eq a b
scalar_eq (bool a) (num b) = int_eq (pos (number_of a)) b
scalar_eq (num a) (bool b) = int_eq a (pos (number_of b))
scalar_eq (num a) (num b) = int_eq a b
scalar_eq (str a) (str b) = str_eq a b
scalar_eq a b = false

unfoldable mutual
  unfolding scalar_eq

  pub json_eq : Json → Json → Bool
  json_eq (arr xs) (arr ys) = items_eq xs ys
  json_eq (obj m) (obj n) = (length (keys m) == length (keys n)) && fields_eq m n
  json_eq (arr xs) b = false
  json_eq (obj m) b = false
  json_eq a b = scalar_eq a b

  pub items_eq : Items → Items → Bool
  items_eq nil nil = true
  items_eq (cons x xs) (cons y ys) = json_eq x y && items_eq xs ys
  items_eq xs ys = false

  -- Each entry of the first dict stands in the second.
  pub fields_eq : Fields → Fields → Bool
  fields_eq end n = true
  fields_eq (field k v m) n =
      elim (get k n) [ none ↦ false | some w ↦ json_eq v w ] && fields_eq m n
