-- ===== src/LimitProcessor/Load.antt =====
-- The constructor of `LimitProcessor`: the reading of a limit file and the building of its stages.
-- The text of the file is an argument. The applications become records, which the code leaves as
-- the dicts that the validation let through.
pub mod Consistent
use pscheduler.Common.{
  ℕ, suc, String, Bool, true, false, concat, decimal, Option, none, some, List, [], ◌∷◌, Result, ok,
  err, Error, key_error, type_error, value_error, ◌>>=◌, ◌>>◌, or_raise,
}
use pscheduler.Json.{
  ℤ, pos, negsuc, Json, null, bool, num, str, arr, obj, Fields, get, get_item, as_text, as_bool,
  as_list,
}
use pscheduler.World.{World}
use pscheduler.PsJson.{json_load}
use pscheduler.Limit.TestType.{texts}
use pscheduler.JqFilter.{Filter}
use pscheduler.Prioritizer
use pscheduler.Rewriter
use pscheduler.IdentifierSet
use pscheduler.ClassifierSet
use pscheduler.ClassifierSet.{requirement_of}
use pscheduler.LimitSet
use pscheduler.ApplicationSet
use pscheduler.ApplicationSet.{Application, Group}
use pscheduler.LimitProcessor.{Stages, Processor, inert, active}

-- A key that may be left out.
optional_text : String → Fields → Result (Option String)
optional_text key m = elim (get key m) [ none ↦ ok none | some v ↦ do s ← as_text v; ok (some s) ]

flag : String → Fields → Result Bool
flag key m = elim (get key m) [ none ↦ ok false | some v ↦ as_bool v ]

unfoldable pub group_of : Json → Result Group
group_of v = do
  r ← get_item v "require"
  name ← as_text r
  require ← or_raise (requirement_of name) (key_error name)
  l ← get_item v "limits"
  ls ← as_list l
  limits ← texts ls
  ok (record { require = require; limits = limits })

unfoldable pub groups_of : List Json → Result (List Group)
groups_of [] = ok []
groups_of (v ∷ vs) = do g ← group_of v; gs ← groups_of vs; ok (g ∷ gs)

unfoldable pub application_of : Json → Result Application
unfolding optional_text flag
application_of (obj m) = do
  classifier ← optional_text "classifier" m
  description ← optional_text "description" m
  a ← get_item (obj m) "apply"
  groups ← as_list a
  gs ← groups_of groups
  stop ← flag "stop-on-failure" m
  invert ← flag "invert" m
  ok (record {
    classifier = classifier;
    description = description;
    groups = gs;
    stop_on_failure = stop;
    invert = invert;
  })
application_of v = err (type_error "not subscriptable by a text")

unfoldable pub applications_of : List Json → Result (List Application)
applications_of [] = ok []
applications_of (v ∷ vs) = do a ← application_of v; more ← applications_of vs; ok (a ∷ more)

-- `"%d" % v`.
percent_d : Json → Result String
percent_d (num (pos n)) = ok (decimal n)
percent_d (num (negsuc n)) = ok (concat ("-" ∷ decimal (suc n) ∷ []))
percent_d (bool true) = ok "1"
percent_d (bool false) = ok "0"
percent_d v = err (type_error "%d format: a number is required")

-- The name of the schema for a limit file: version 1 if the file does not say.
unfoldable pub schema_name : Fields → Result String
unfolding percent_d
schema_name config = do
  version ← percent_d (elim (get "schema" config) [ none ↦ num (pos 1) | some v ↦ v ])
  ok (concat ("LimitConfiguration_V" ∷ version ∷ []))

-- `json_validate(limit_config, temp_schema)` and the exception for what is not valid.
unfoldable pub validate : World → Fields → Result (Unit {0})
validate w config = do
  schema ← schema_name config
  elim (w.json_validate schema (obj config)) [
    | none ↦ ok tt
    | some message ↦ err (value_error (concat ("Invalid limit file: " ∷ message ∷ [])))
  ]

-- `limit_config[key]`, a list.
unfoldable pub section : String → Fields → Result (List Json)
section key config = do v ← get_item (obj config) key; as_list v

unfoldable pub rewriter_of : World → Fields → Result (Option Filter)
rewriter_of w config = elim (get "rewrite" config) [
  | none ↦ ok none
  | some transform ↦ do f ← Rewriter.construct w transform; ok (some f)
]

-- `except KeyError`: also one that the prioritizer's own constructor raises.
no_prioritizer : Result Filter → Result (Option Filter)
no_prioritizer (err (key_error key)) = ok none
no_prioritizer (err e) = err e
no_prioritizer (ok f) = ok (some f)

unfoldable pub prioritizer_of : World → Fields → Result (Option Filter)
unfolding no_prioritizer
prioritizer_of w config =
    no_prioritizer
      (do transform ← get_item (obj config) "priority"; Prioritizer.construct w transform)

-- The stages, in the order of the code.
unfoldable pub stages_of : World → Fields → Result Stages
stages_of w config = do
  i ← section "identifiers" config
  identifiers ← IdentifierSet.construct w i
  c ← section "classifiers" config
  classifiers ← ClassifierSet.construct identifiers c
  rewriter ← rewriter_of w config
  l ← section "limits" config
  limits ← LimitSet.construct w l
  a ← section "applications" config
  fodder ← applications_of a
  applications ← ApplicationSet.construct classifiers limits fodder
  prioritizer ← prioritizer_of w config
  ok (record {
    identifiers = identifiers;
    classifiers = classifiers;
    rewriter = rewriter;
    limits = limits;
    applications = applications;
    prioritizer = prioritizer;
  })

config_of : Json → Result Fields
config_of (obj m) = ok m
config_of v = err (value_error "Limit configuration must be an object.")

-- `LimitProcessor(source)`, on the text of the file, if there is a source.
unfoldable pub init : World → Option String → Result Processor
unfolding config_of
init w none = ok inert
init w (some source) = do
  limit_config ← json_load w source
  config ← config_of limit_config
  validate w config
  stages ← stages_of w config
  ok (active stages)
