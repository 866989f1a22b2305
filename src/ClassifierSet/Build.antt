-- ===== src/ClassifierSet/Build.antt =====
-- What the constructor of `ClassifierSet` accepts.
use pscheduler.Common.{
  String, ◌≡◌, refl, true, false, not, List, [], ◌∷◌, ◌++◌, ok, arith, >>=-eq-ok, All, AllDistinct,
  AllDistinct-snoc, contains-keys, keys, every, has_key, guard, is_empty, ◌∙◌,
}
use pscheduler.Json.{Json, get_item, as_text, as_list}
use pscheduler.Limit.TestType.{texts}
use pscheduler.IdentifierSet.{IdentifierSet, contains_name}
use pscheduler.ClassifierSet.{
  ClassifierSet, Classifier, add, add_all, construct, duplicate, unknown, missing_of, require_of,
}

-- What the constructor guarantees: no name twice, and each identifier named is known.
pub record IsWellFormed (is : IdentifierSet) (cs : ClassifierSet) : Type 0 where
  pub distinct : AllDistinct (keys cs)
  pub known : All (λ (e : String × Classifier). every (contains_name is) e.1.identifiers ≡ true) cs

nothing_missing :
    (is : IdentifierSet) (xs : List String)
    → is_empty (missing_of is xs) ≡ true
    → every (contains_name is) xs ≡ true
nothing_missing is [] h = refl
nothing_missing is (x ∷ xs) h = ground (arith, nothing_missing is xs)

keys-snoc :
    (cs : ClassifierSet) (name : String) (c : Classifier)
    → keys (cs ++ (name, c) ∷ []) ≡ keys cs ++ name ∷ []
keys-snoc [] name c = refl
keys-snoc ((n, d) ∷ cs) name c = rw (keys-snoc cs name c)

All-snoc :
    (P : String × Classifier → Type 0) (cs : ClassifierSet) (e : String × Classifier)
    → All P cs
    → P e
    → All P (cs ++ e ∷ [])
All-snoc P [] e a p = (p, tt)
All-snoc P (c ∷ cs) e a p = (a.0, All-snoc P cs e a.1 p)

add-IsWellFormed :
    (is : IdentifierSet) (cs more : ClassifierSet) (classifier : Json)
    → add is cs classifier ≡ ok more
    → IsWellFormed is cs
    → IsWellFormed is more
unfolding add
add-IsWellFormed is cs more classifier h wf =
    let (n, e1, h1) = >>=-eq-ok (get_item classifier "name") _ h in
    let (name, e2, h2) = >>=-eq-ok (as_text n) _ h1 in
    let (u, e3, h3) = >>=-eq-ok (guard (not (has_key name cs)) (duplicate name)) _ h2 in
    let (v, e4, h4) = >>=-eq-ok (get_item classifier "identifiers") _ h3 in
    let (vs, e5, h5) = >>=-eq-ok (as_list v) _ h4 in
    let (xs, e6, h6) = >>=-eq-ok (texts vs) _ h5 in
    let (u', e7, h7) =
      >>=-eq-ok (guard (is_empty (missing_of is xs)) (unknown (missing_of is xs))) _ h6 in
    let (r, e8, h8) = >>=-eq-ok (require_of classifier) _ h7 in
    let made : more ≡ cs ++ (name, record { identifiers = xs; require = r }) ∷ [] = cc in
    let absent : has_key name cs ≡ false = ground arith in
    rw made (record {
      distinct =
          rw (keys-snoc cs name (record { identifiers = xs; require = r }))
            (AllDistinct-snoc (keys cs) name wf.distinct (contains-keys name cs ∙ absent));
      known = All-snoc _ cs _ wf.known (nothing_missing is xs (ground arith));
    })

add_all-IsWellFormed :
    (is : IdentifierSet) (cs more : ClassifierSet) (fodder : List Json)
    → add_all is cs fodder ≡ ok more
    → IsWellFormed is cs
    → IsWellFormed is more
unfolding add_all
add_all-IsWellFormed is cs more [] h wf = let same : cs ≡ more = cc in rw (← same) wf
add_all-IsWellFormed is cs more (c ∷ fodder) h wf =
    let (next, e, h') = >>=-eq-ok (add is cs c) (λ m. add_all is m fodder) h in
    add_all-IsWellFormed is next more fodder h' (add-IsWellFormed is cs next c e wf)

-- A set of classifiers that the constructor accepts has no name twice, and its classifiers name
-- only identifiers of the set of identifiers that it was given.
pub construct-IsWellFormed :
    (is : IdentifierSet) (fodder : List Json) (cs : ClassifierSet)
    → construct is fodder ≡ ok cs
    → IsWellFormed is cs
unfolding construct
construct-IsWellFormed is fodder cs h =
    add_all-IsWellFormed is [] cs fodder h (record { distinct = tt; known = tt })
