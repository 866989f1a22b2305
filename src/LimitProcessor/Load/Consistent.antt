-- ===== src/LimitProcessor/Load/Consistent.antt =====
-- The names across the stages of a processor that was loaded.
use pscheduler.Common.{
  String, ◌≡◌, Option, some, List, ok, All, AllDistinct, keys, ◌>>=◌, Ensures, Ensures-bind,
  Ensures-ok,
}
use pscheduler.World.{World}
use pscheduler.Json.{Fields}
use pscheduler.IdentifierSet
use pscheduler.ClassifierSet
use pscheduler.ClassifierSet.Build.{IsWellFormed, construct-IsWellFormed}
use pscheduler.LimitSet
use pscheduler.LimitSet.Build.{construct-AllDistinct}
use pscheduler.ApplicationSet
use pscheduler.ApplicationSet.{Application}
use pscheduler.JqFilter.{Filter}
use pscheduler.ApplicationSet.Known.{KnowsClassifier, KnowsLimits, construct-Known}
use pscheduler.PsJson.{json_load}
use pscheduler.LimitProcessor.{Stages, Processor, inert, active}
use pscheduler.LimitProcessor.Load.{
  init, stages_of, section, rewriter_of, prioritizer_of, applications_of, validate, config_of,
}

-- Each stage names only what the stages before it define.
pub record IsConsistent (s : Stages) : Type 0 where
  pub classifiers : IsWellFormed s.identifiers s.classifiers
  pub limits : AllDistinct (keys s.limits)
  pub known_classifiers : All (KnowsClassifier s.classifiers) s.applications
  pub known_limits : All (KnowsLimits s.limits) s.applications

applied :
    (w : World) (config : Fields) (is : IdentifierSet.IdentifierSet)
    (cs : ClassifierSet.ClassifierSet) (r : Option Filter) (ls : LimitSet.LimitSet)
    (fodder : List Application)
    → IsWellFormed is cs
    → AllDistinct (keys ls)
    → Ensures IsConsistent (do
      applications ← ApplicationSet.construct cs ls fodder
      prioritizer ← prioritizer_of w config
      ok (record {
        identifiers = is;
        classifiers = cs;
        rewriter = r;
        limits = ls;
        applications = applications;
        prioritizer = prioritizer;
      }))
applied w config is cs r ls fodder wf d =
    Ensures-bind _ (ApplicationSet.construct cs ls fodder) _ λ as' known.
      Ensures-bind _ (prioritizer_of w config) _ λ p made.
        let k = construct-Known cs ls fodder as' known in
        record { classifiers = wf; limits = d; known_classifiers = k.1; known_limits = k.2 }

stages_of-IsConsistent : (w : World) (config : Fields) → Ensures IsConsistent (stages_of w config)
unfolding stages_of
stages_of-IsConsistent w config = Ensures-bind _ (section "identifiers" config) _ λ i ei.
    Ensures-bind _ (IdentifierSet.construct w i) _ λ is eis.
      Ensures-bind _ (section "classifiers" config) _ λ c ec.
        Ensures-bind _ (ClassifierSet.construct is c) _ λ cs ecs.
          Ensures-bind _ (rewriter_of w config) _ λ r er.
            Ensures-bind _ (section "limits" config) _ λ l el.
              Ensures-bind _ (LimitSet.construct w l) _ λ ls els.
                Ensures-bind _ (section "applications" config) _ λ a ea.
                  Ensures-bind _ (applications_of a) _ λ f ef.
                    applied w config is cs r ls f (construct-IsWellFormed is c cs ecs)
                      (construct-AllDistinct w l ls els)

-- What a processor is, if it is not inert.
abbrev ActiveConsistent : Processor → Type 0
ActiveConsistent inert = Unit
ActiveConsistent (active s) = IsConsistent s

loaded-Consistent : (w : World) (source : String) → Ensures ActiveConsistent (init w (some source))
unfolding init
loaded-Consistent w source = Ensures-bind _ (json_load w source) _ λ v ev.
    Ensures-bind _ (config_of v) _ λ config ec. Ensures-bind _ (validate w config) _ λ u eu.
      Ensures-bind _ (stages_of w config) _
        λ s es. Ensures-ok IsConsistent (stages_of w config) (stages_of-IsConsistent w config) es

-- A processor that is loaded from a limit file is consistent: no classifier and no limit has its
-- name twice, the classifiers name only identifiers of the file, and the applications name only
-- classifiers and limits of the file.
pub init-IsConsistent :
    (w : World) (source : String) (s : Stages)
    → init w (some source) ≡ ok (active s)
    → IsConsistent s
init-IsConsistent w source s h =
    Ensures-ok ActiveConsistent (init w (some source)) (loaded-Consistent w source) h
