-- ===== src/PsJson/Comments.antt =====
-- What is left when comments are removed.
use pscheduler.Common.{String, ◌≡◌, refl, ap, Bool, starts_with, arith, Bool-cases, inl, inr}
use pscheduler.Json.{Json, null, bool, num, str, arr, obj, Items, nil, cons, Fields, end, field}
use pscheduler.PsJson.{json_decomment, decomment_items, decomment_fields}

mutual
  unfolding json_decomment

  -- Removing the comments a second time changes nothing more, whether they are deleted or replaced
  -- by null.
  json_decomment_idem :
      (prefix : String) (null' : Bool) (v : Json)
      → json_decomment prefix null' (json_decomment prefix null' v) ≡ json_decomment prefix null' v
  json_decomment_idem prefix null' (arr xs) = ap arr (items_idem prefix null' xs)
  json_decomment_idem prefix null' (obj m) = ap obj (fields_idem prefix null' m)
  json_decomment_idem prefix null' null = refl
  json_decomment_idem prefix null' (bool b) = refl
  json_decomment_idem prefix null' (num n) = refl
  json_decomment_idem prefix null' (str s) = refl

  items_idem :
      (prefix : String) (null' : Bool) (xs : Items)
      → decomment_items prefix null' (decomment_items prefix null' xs)
        ≡ decomment_items prefix null' xs
  items_idem prefix null' nil = refl
  items_idem prefix null' (cons v vs) =
      cc (json_decomment_idem prefix null' v, items_idem prefix null' vs)

  fields_idem :
      (prefix : String) (null' : Bool) (m : Fields)
      → decomment_fields prefix null' (decomment_fields prefix null' m)
        ≡ decomment_fields prefix null' m
  fields_idem prefix null' end = refl
  fields_idem prefix null' (field item v m) =
      let kept = json_decomment_idem prefix null' v in
      let rest = fields_idem prefix null' m in
      elim (Bool-cases (starts_with prefix item)) [
        | inl c ↦ elim (Bool-cases null') [ inl n ↦ ground arith | inr n ↦ ground arith ]
        | inr o ↦ ground arith
      ]
