-- ===== src/ApplicationSet/Known.antt =====
-- What the constructor of the set of applications guarantees of the names in it.
use mathlib.Core.Path.{subst}
use pscheduler.Common.{
  String, ◌≡◌, refl, Bool, true, false, Option, none, some, List, [], ◌∷◌, ◌++◌, ok, All, every,
  is_empty, has_key, contains, arith, Bool-cases, inl, inr,
}
use pscheduler.ClassifierSet.{ClassifierSet}
use pscheduler.LimitSet.{LimitSet, contains_limit}
use pscheduler.ApplicationSet.{
  Application, Group, note_unknown, note_classifier, unknown_classifiers, unknown_in,
  unknown_in_groups, unknown_limits, complaint, construct,
}

-- The classifier that an application names, if it names one, is known.
abbrev pub IsKnown : ClassifierSet → Option String → Type 0
IsKnown cs none = Unit
IsKnown cs (some name) = has_key name cs ≡ true

abbrev pub KnowsClassifier : ClassifierSet → Application → Type 0
KnowsClassifier cs a = IsKnown cs a.classifier

abbrev pub KnowsLimits : LimitSet → Application → Type 0
KnowsLimits limits a = All (λ (g : Group). every (contains_limit limits) g.limits ≡ true) a.groups

-- Nothing was noted, and so the name is known.
nothing_noted :
    (known : Bool) (name : String) (unknown : List String)
    → is_empty (note_unknown known name unknown) ≡ true
    → (is_empty unknown ≡ true) × (known ≡ true)
unfolding note_unknown
nothing_noted true name unknown h = (h, refl)
nothing_noted false name [] h = cc
nothing_noted false name (x ∷ xs) h = elim (Bool-cases (contains (x ∷ xs) name)) [
  | inl e ↦ ground (arith, e)
  | inr e ↦ ground (arith, e)
]

no_unknown_in :
    (limits : LimitSet) (unknown names : List String)
    → is_empty (unknown_in limits unknown names) ≡ true
    → (is_empty unknown ≡ true) × (every (contains_limit limits) names ≡ true)
unfolding unknown_in
no_unknown_in limits unknown [] h = (h, refl)
no_unknown_in limits unknown (name ∷ names) h =
    let (a, b) =
      no_unknown_in limits (note_unknown (contains_limit limits name) name unknown) names h in
    let (c, d) = nothing_noted (contains_limit limits name) name unknown a in (c, rw (d, b) refl)

no_unknown_in_groups :
    (limits : LimitSet) (unknown : List String) (gs : List Group)
    → is_empty (unknown_in_groups limits unknown gs) ≡ true
    → (is_empty unknown ≡ true)
      × All (λ (g : Group). every (contains_limit limits) g.limits ≡ true) gs
unfolding unknown_in_groups
no_unknown_in_groups limits unknown [] h = (h, tt)
no_unknown_in_groups limits unknown (g ∷ gs) h =
    let r = no_unknown_in_groups limits (unknown_in limits unknown g.limits) gs h in
    let q = no_unknown_in limits unknown g.limits r.0 in (q.0, (q.1, r.1))

no_unknown_limits :
    (limits : LimitSet) (unknown : List String) (apps : List Application)
    → is_empty (unknown_limits limits unknown apps) ≡ true
    → (is_empty unknown ≡ true) × All (KnowsLimits limits) apps
unfolding unknown_limits
no_unknown_limits limits unknown [] h = (h, tt)
no_unknown_limits limits unknown (a ∷ as') h =
    let r = no_unknown_limits limits (unknown_in_groups limits unknown a.groups) as' h in
    let q = no_unknown_in_groups limits unknown a.groups r.0 in (q.0, (q.1, r.1))

noted_classifier :
    (cs : ClassifierSet) (unknown : List String) (c : Option String)
    → is_empty (note_classifier cs c unknown) ≡ true
    → (is_empty unknown ≡ true) × IsKnown cs c
unfolding note_classifier
noted_classifier cs unknown none h = (h, tt)
noted_classifier cs unknown (some name) h = nothing_noted (has_key name cs) name unknown h

no_unknown_classifiers :
    (cs : ClassifierSet) (unknown : List String) (apps : List Application)
    → is_empty (unknown_classifiers cs unknown apps) ≡ true
    → (is_empty unknown ≡ true) × All (KnowsClassifier cs) apps
unfolding unknown_classifiers
no_unknown_classifiers cs unknown [] h = (h, tt)
no_unknown_classifiers cs unknown (a ∷ as') h =
    let r = no_unknown_classifiers cs (note_classifier cs a.classifier unknown) as' h in
    let q = noted_classifier cs unknown a.classifier r.0 in (q.0, (q.1, r.1))

no_complaint :
    (a b : String) (xs ys : List String)
    → is_empty (complaint a xs ++ complaint b ys) ≡ true
    → (is_empty xs ≡ true) × (is_empty ys ≡ true)
unfolding complaint
no_complaint a b [] [] h = (refl, refl)
no_complaint a b [] (y ∷ ys) h = cc
no_complaint a b (x ∷ xs) ys h = cc

-- What the constructor accepts it returns as it is, and every classifier and every limit that it
-- names is known.
pub construct-Known :
    (cs : ClassifierSet) (limits : LimitSet) (fodder apps : List Application)
    → construct cs limits fodder ≡ ok apps
    → (apps ≡ fodder) × All (KnowsClassifier cs) apps × All (KnowsLimits limits) apps
unfolding construct
construct-Known cs limits fodder apps h =
    let us = unknown_classifiers cs [] fodder in
    let ls = unknown_limits limits [] fodder in
    elim (Bool-cases
      (is_empty (complaint "Unknown classifiers: " us ++ complaint "Unknown limits: " ls))) [
        | inl e ↦
            let q = no_complaint _ _ us ls e in
            let same : fodder ≡ apps = ground (arith, e) in
            subst
              (λ (x : List Application).
                (x ≡ fodder) × All (KnowsClassifier cs) x × All (KnowsLimits limits) x)
              same
              (
                refl,
                (no_unknown_classifiers cs [] fodder q.0).1,
                (no_unknown_limits limits [] fodder q.1).1,
              )
        | inr e ↦ absurd (ground (arith, e))
      ]
