-- ===== src/Samples/Documents.antt =====
-- Documents written and read, and a limit file loaded.
use Prim.Native.String
use pscheduler.Common.{
  String, ◌≡◌, refl, true, false, str_eq, some, List, [], ◌∷◌, map, Result, Option, ok, err,
  value_error, arith, starts_with, if◌then◌else◌, decimal,
}
use pscheduler.Json.{
  Json, num, pos, bool, str, arr, obj, nil, cons, end, field, get_item, as_text, as_bool, as_list,
  as_dict,
}
use pscheduler.World.{World}
use pscheduler.PsJson.{json_load_schema, loaded, json_decomment}
use pscheduler.PsJson.Rfc7464.{emit_all, read_all, without_newlines}
use pscheduler.PsJson.Rfc7464.RoundTrip.{read_all-emit_all, read_all-ends}
use pscheduler.Identifier
use pscheduler.Limit
use pscheduler.Limit.PassFail
use pscheduler.Proposal.{check_data}
use pscheduler.IdentifierSet
use pscheduler.ClassifierSet
use pscheduler.LimitSet
use pscheduler.ApplicationSet
use pscheduler.LimitProcessor.{Stages, Processor, active}
use pscheduler.LimitProcessor.Load.{
  init, schema_name, validate, section, rewriter_of, prioritizer_of, stages_of, applications_of,
  application_of, groups_of, group_of,
}
use pscheduler.LimitProcessor.Load.Consistent.{IsConsistent, init-IsConsistent}
use pscheduler.Samples.Worlds.{world}

-- A document with a comment, and a world that writes and reads it over two lines.
abbrev commented : Json
commented = obj (field "#note" (str "why") (field "a" (bool true) end))

abbrev printer : World
printer = record world {
  json_dumps = λ v. "{\"#note\": \"why\",\n \"a\": true}";
  json_loads = λ s.
      if str_eq s "{\"#note\": \"why\", \"a\": true}\n"
      then ok commented
      else err (value_error "No JSON");
}

reads :
    printer.json_loads (String.◌++◌ (without_newlines (printer.json_dumps commented)) "\n")
    ≡ ok commented
unfolding without_newlines
reads = refl

read_all-emit_all_example :
    (handle : String) × (emit_all printer (commented ∷ commented ∷ []) "" ≡ ok handle)
    × (read_all printer 3 handle
        ≡ some (ok (map (json_decomment "#" false) (commented ∷ commented ∷ []))))
read_all-emit_all_example =
    read_all-emit_all printer (commented ∷ commented ∷ []) (reads, (reads, tt))

read_all-ends_example : (r : Result (List Json)) × (read_all printer 9 "\u{1e}{}\nrest" ≡ some r)
read_all-ends_example = read_all-ends printer 9 "\u{1e}{}\nrest" (omega arith)

-- A limit file whose only application lets everybody pass.
abbrev everybody : Json
everybody =
    obj (field "name" (str "everybody") (field "type" (str "always") (field "data" (obj end) end)))

abbrev friends : Json
friends =
    obj (field "name" (str "friends") (field "identifiers" (arr (cons (str "everybody") nil)) end))

abbrev let_in : Json
let_in = obj (
    field "name" (str "let-in")
      (field "type" (str "pass-fail") (field "data" (obj (field "pass" (bool true) end)) end)))

abbrev apply : Json
apply = obj (
    field "classifier" (str "friends") (
      field "apply"
        (arr (
          cons
            (obj (field "require" (str "all") (field "limits" (arr (cons (str "let-in") nil)) end)))
            nil))
        end))

abbrev limit_file : Json
limit_file = obj (
    field "#" (str "A comment") (
      field "schema" (num (pos 3)) (
        field "identifiers" (arr (cons everybody nil)) (
          field "classifiers" (arr (cons friends nil)) (
            field "limits" (arr (cons let_in nil))
              (field "applications" (arr (cons apply nil)) end))))))

abbrev files : World
files = record world { json_loads = λ s. ok limit_file }

abbrev loaded_stages : Result Processor → Stages
loaded_stages (ok (active s)) = s
loaded_stages r = record {
  identifiers = [];
  classifiers = [];
  rewriter = Option.none;
  limits = [];
  applications = [];
  prioritizer = Option.none;
}

abbrev file_stages : Stages
file_stages = loaded_stages (init files (some "limits.conf"))

file_loads : init files (some "limits.conf") ≡ ok (active file_stages)
unfolding init json_load_schema loaded json_decomment starts_with validate schema_name decimal
    stages_of section as_list get_item as_text as_bool as_dict IdentifierSet.construct
    IdentifierSet.add_all IdentifierSet.add ClassifierSet.construct ClassifierSet.add_all
    ClassifierSet.add ClassifierSet.requirement_of LimitSet.construct LimitSet.add_all LimitSet.add
    ApplicationSet.construct applications_of application_of groups_of group_of rewriter_of
    prioritizer_of Identifier.create LimitSet.resolve LimitSet.plain Limit.create PassFail.construct
    check_data LimitSet.contains_limit
file_loads = refl

init-IsConsistent_example : IsConsistent file_stages
init-IsConsistent_example = init-IsConsistent files "limits.conf" file_stages file_loads
