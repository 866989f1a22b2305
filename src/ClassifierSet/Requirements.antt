-- ===== src/ClassifierSet/Requirements.antt =====
-- What the four requirements ask of the identified names.
use pscheduler.Common.{
  String, ◌≡◌, refl, Bool, not, List, [], ◌∷◌, length, filter_by, contains, every, some_of,
  count_of, count_of_le, length-filter_by, arith, ◌==◌, ltb,
}
use pscheduler.ClassifierSet.{
  Requirement, nothing, one, any, all, Classifier, check_count, classified,
}

-- What a requirement asks for, said of the classifier's identifiers one by one.
abbrev pub required : Requirement → (String → Bool) → List String → Bool
required nothing p xs = every (λ x. not (p x)) xs
required one p xs = count_of p xs == 1
required any p xs = some_of p xs
required all p xs = every p xs

module _ (p : String → Bool) where
  pub none_met : (xs : List String) → (count_of p xs == 0) ≡ every (λ x. not (p x)) xs
  none_met [] = refl
  none_met (x ∷ xs) = ground (arith, none_met xs)

  pub some_met : (xs : List String) → ltb 0 (count_of p xs) ≡ some_of p xs
  some_met [] = refl
  some_met (x ∷ xs) = ground (arith, some_met xs)

  pub all_met : (xs : List String) → (count_of p xs == length xs) ≡ every p xs
  all_met [] = refl
  all_met (x ∷ xs) = ground (arith, all_met xs, count_of_le p xs)

  pub none_failed : (xs : List String) → (count_of (λ x. not (p x)) xs == 0) ≡ every p xs
  none_failed [] = refl
  none_failed (x ∷ xs) = ground (arith, none_failed xs)

-- A classification is made exactly as its requirement says: none, exactly one, some or all of the
-- classifier's identifiers, each counted as often as it is listed, are among those identified.
pub classified-required :
    (identified : List String) (c : Classifier)
    → classified identified c ≡ required c.require (contains identified) c.identifiers
unfolding classified check_count
classified-required identified c = by_requirement c.require c.identifiers
  where
    by_requirement :
        (r : Requirement) (xs : List String)
        → check_count r (length (filter_by (contains identified) xs)) (length xs)
          ≡ required r (contains identified) xs
    by_requirement nothing xs = rw length-filter_by (none_met (contains identified) xs)
    by_requirement one xs = rw length-filter_by
    by_requirement any xs = rw length-filter_by (some_met (contains identified) xs)
    by_requirement all xs = rw length-filter_by (all_met (contains identified) xs)
