-- ===== src/SpecLimits/Absent.antt =====
-- Fields that are not there.
use pscheduler.Common.{
  String, ◌≡◌, ◌≢◌, ◌⊎◌, str_eq_refl, refl, ◌∙◌, Bool, false, none, some, Option-cases, inl, inr,
  List, [], Result, ok, err, key_error, >>=-eq-ok, arith,
}
use pscheduler.Json.{Json, bool, obj, Fields, get, put, item-some, item-none, get_item, as_dict}
use pscheduler.World.{World}
use pscheduler.MergeDicts.Laws.{get-put}
use pscheduler.EnumMatcher
use pscheduler.SpecLimits.{
  fail_message, Subject, unless_missing, check_duration_limit, duration_errors, check_boolean_limit,
  boolean_errors, check_numeric_list_limit, list_errors, check_enum_limit, enum_errors,
  check_string_limit, string_errors,
}

module _ (w : World) (s : Subject) where
  missing_limit :
      (k : String)
      → get_item s.limit s.limit_field ≡ err (key_error k)
      → (check_boolean_limit s ≡ ok [])
        × (check_enum_limit w s ≡ ok [])
        × (check_string_limit w s ≡ ok [])
  unfolding check_boolean_limit boolean_errors check_enum_limit enum_errors check_string_limit
      string_errors
  missing_limit k e = (rw e, rw e, rw e)

  missing_limit_or_field :
      (k : String) (r : Result Json) (convert_iso : Bool)
      → get_item s.limit s.limit_field ≡ err (key_error k)
      → get_item s.spec s.spec_field ≡ r
      → ((v : Json) × (r ≡ ok v)) ⊎ (r ≡ err (key_error s.spec_field))
      → (check_duration_limit w s convert_iso ≡ ok []) × (check_numeric_list_limit s ≡ ok [])
  unfolding check_duration_limit duration_errors check_numeric_list_limit list_errors
  missing_limit_or_field k r convert_iso e f (inl (v, g)) = (rw (f, g, e), rw (f, g, e))
  missing_limit_or_field k r convert_iso e f (inr g) = (rw (f, g), rw (f, g))

  -- A limit that does not have the field refuses nothing, whichever of the helpers checks it and
  -- whatever the spec has.
  no_limit_no_errors :
      (limit spec : Fields) (convert_iso : Bool)
      → s.limit ≡ obj limit
      → s.spec ≡ obj spec
      → get s.limit_field limit ≡ none
      → (check_duration_limit w s convert_iso ≡ ok [])
        × (check_boolean_limit s ≡ ok [])
        × (check_numeric_list_limit s ≡ ok [])
        × (check_enum_limit w s ≡ ok [])
        × (check_string_limit w s ≡ ok [])
  no_limit_no_errors limit spec convert_iso el es n =
      let absent : get_item s.limit s.limit_field ≡ err (key_error s.limit_field) =
        rw el (item-none s.limit_field limit n) in
      let (b, e, t) = missing_limit s.limit_field absent in
      let either' : ((v : Json) × (get_item s.spec s.spec_field ≡ ok v))
          ⊎ (get_item s.spec s.spec_field ≡ err (key_error s.spec_field)) =
        elim (Option-cases (get s.spec_field spec)) [
          | inl m ↦ inr (rw es (item-none s.spec_field spec m))
          | inr (v, m) ↦ inl (v, rw es (item-some s.spec_field spec v m))
        ] in
      let (d, l) = missing_limit_or_field s.limit_field _ convert_iso absent refl either' in
      (d, b, l, e, t)

  unless_missing-nothing :
      (r : Result (List String)) (errors : List String)
      → ((found : List String) → r ≢ ok found)
      → unless_missing r ≡ ok errors
      → errors ≡ []
  unless_missing-nothing (ok found) errors n h = absurd (n found refl)
  unless_missing-nothing (err e) errors n h = ground arith

  -- A limit on an enumeration looks for the limit's field in the spec, so if the spec calls the field
  -- by another name and has none of the limit's, nothing is refused.
  enum_limit_other_field :
      (spec : Fields) (errors : List String)
      → s.spec ≡ obj spec
      → get s.limit_field spec ≡ none
      → check_enum_limit w s ≡ ok errors
      → errors ≡ []
  unfolding check_enum_limit enum_errors
  enum_limit_other_field spec errors es n h =
      unless_missing-nothing (enum_errors w s) errors
        (λ found h'.
          let absent : get_item s.spec s.limit_field ≡ err (key_error s.limit_field) =
            rw es (item-none s.limit_field spec n) in
          let (l, e1, h1) = >>=-eq-ok (get_item s.limit s.limit_field) _ h' in
          let (enumeration, e2, h2) = >>=-eq-ok (get_item l "enumeration") _ h1 in
          let (m, e3, h3) = >>=-eq-ok (as_dict l) _ h2 in
          let (matcher, e4, h4) = >>=-eq-ok (EnumMatcher.construct w _) _ h3 in
          let (v, e5, h5) = >>=-eq-ok (get_item s.spec s.spec_field) _ h4 in
          let (fail_msg, e6, h6) = >>=-eq-ok (fail_message l _) _ h5 in
          let (matched, e7, h7) = >>=-eq-ok (get_item s.spec s.limit_field) _ h6 in cc)
        h

-- A boolean that the spec does not have is judged as one that is false.
absent_boolean_is_false :
    (s : Subject) (spec : Fields)
    → get s.spec_field spec ≡ none
    → check_boolean_limit (record s { spec = obj spec })
      ≡ check_boolean_limit (record s { spec = obj (put s.spec_field (bool false) spec) })
unfolding check_boolean_limit boolean_errors as_dict
absent_boolean_is_false s spec n =
    let kept : get s.spec_field (put s.spec_field (bool false) spec) ≡ some (bool false) =
      get-put s.spec_field s.spec_field (bool false) spec ∙ rw str_eq_refl in
    rw (n, kept)
