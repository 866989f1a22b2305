-- ===== src/Samples/Merges.antt =====
-- Merged dicts and cloned limits.
use pscheduler.Common.{◌≡◌, refl, true, false, none, some, [], ◌∷◌, ok}
use pscheduler.Json.{Json, bool, str, obj, Fields, end, field, get}
use pscheduler.Limit.{pass_fail}
use pscheduler.Limit
use pscheduler.Limit.PassFail
use pscheduler.Json
use pscheduler.Proposal.{check_data}
use pscheduler.Json.Equality.{json_eq}
use pscheduler.MergeDicts.{merge_dicts}
use pscheduler.LimitSet.{LimitSet, LimitEntry, plain, resolve, add, add_all, construct}
use pscheduler.Samples.Worlds.{world}

abbrev old : Fields
old = field "pass" (bool true) (field "note" (str "a") end)

abbrev new : Fields
new = field "pass" (bool false) end

overlaid : merge_dicts old new ≡ field "pass" (bool false) (field "note" (str "a") end)
unfolding merge_dicts json_eq
overlaid = refl

abbrev always : LimitEntry
always = record {
  name = "always";
  type = "pass-fail";
  config = obj old;
  invert = some true;
  evaluator = pass_fail true;
}

abbrev first_limit : Json
first_limit = obj (
    field "name" (str "always")
      (field "type" (str "pass-fail") (field "data" (obj (field "pass" (bool true) end)) end)))

abbrev built : LimitSet
built =
    (
      "always",
      record {
        name = "always";
        type = "pass-fail";
        config = obj (field "pass" (bool true) end);
        invert = none;
        evaluator = pass_fail true;
      },
    )
    ∷ []

building : construct world (first_limit ∷ []) ≡ ok built
unfolding construct add_all add resolve plain Limit.create PassFail.construct check_data
    Json.get_item Json.as_text Json.as_bool Json.as_dict
building = refl
