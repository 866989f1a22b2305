-- ===== src/ApplicationSet/Groups.antt =====
-- When a group of limits passes, and when an application does.
use pscheduler.Common.{
  ℕ, suc, ◌+◌, ◌-◌, ◌≤◌, String, ◌≡◌, refl, ◌∙◌, ap, Bool, true, false, not, List, [], ◌∷◌, length,
  Result, ok, err, >>=-eq-ok, every, count_of, ◌==◌, arith, if◌then◌else◌, Bool-cases, inl, inr,
}
use pscheduler.Json.{Json}
use pscheduler.World.{World}
use pscheduler.Proposal.{Proposal, Evaluated}
use pscheduler.ClassifierSet.{Requirement, nothing, one, any, all}
use pscheduler.ClassifierSet.Requirements.{required, none_met, some_met, none_failed}
use pscheduler.LimitSet.{LimitSet, check}
use pscheduler.ApplicationSet.{
  Group, Application, Tally, fresh, GroupResult, ApplicationResult, condition, count_limit, tally,
  check_group, check_groups, check_application,
}

-- The number of groups left in a result of the loop.
remaining : ℕ → Result (ℕ × List Json × List String) → ℕ
remaining n (ok r) = r.0
remaining n (err e) = n

abbrev pub group_passed : Result GroupResult → Bool
group_passed (ok r) = r.passed
group_passed (err e) = false

module _ (w : World) (limits : LimitSet) (p : Proposal) (schedule : Bool) where
  -- The check of the limit gives a pass, and no exception.
  abbrev pub limit_passes : String → Bool
  limit_passes name = elim (check w limits p name schedule) [ ok e ↦ e.passed | err e ↦ false ]

  abbrev pub group_passes : Group → Bool
  group_passes g = group_passed (check_group w limits p schedule g)

  count_limit-counts :
      (t t' : Tally) (name : String) (e : Evaluated)
      → count_limit t name e ≡ ok t'
      → (t'.passes ≡ (if e.passed then t.passes + 1 else t.passes))
        × (t'.fails ≡ (if e.passed then t.fails else t.fails + 1))
  unfolding count_limit
  count_limit-counts t t' name e h = ground arith

  tally-counts :
      (names : List String) (t r : Tally)
      → tally w limits p schedule t names ≡ ok r
      → (r.passes ≡ t.passes + count_of limit_passes names)
        × (r.fails ≡ t.fails + count_of (λ n. not (limit_passes n)) names)
  unfolding tally
  tally-counts [] t r h = ground arith
  tally-counts (n ∷ names) t r h =
      let (e, e1, h1) = >>=-eq-ok (check w limits p n schedule) _ h in
      let (next, e2, h2) = >>=-eq-ok (count_limit t n e) _ h1 in
      ground (arith, count_limit-counts t next n e e2, tally-counts names next r h2)

  condition-required :
      (r : Requirement) (names : List String)
      → condition r (count_of limit_passes names) (count_of (λ n. not (limit_passes n)) names)
        ≡ required r limit_passes names
  unfolding condition
  condition-required nothing names = none_met limit_passes names
  condition-required one names = refl
  condition-required any names = some_met limit_passes names
  condition-required all names = none_failed limit_passes names

  -- A group that is checked without an exception passes exactly if none, exactly one, some or all of
  -- its limits pass, as it requires; each limit counts as often as it is listed.
  pub check_group-required :
      (g : Group) (r : GroupResult)
      → check_group w limits p schedule g ≡ ok r
      → r.passed ≡ required g.require limit_passes g.limits
  unfolding check_group
  check_group-required g r h =
      let (t, e, h') = >>=-eq-ok (tally w limits p schedule fresh g.limits) _ h in
      let (a, b) = tally-counts g.limits fresh t e in
      let passes : t.passes ≡ count_of limit_passes g.limits = omega (arith, a) in
      let fails : t.fails ≡ count_of (λ n. not (limit_passes n)) g.limits = omega (arith, b) in
      let made : r.passed ≡ condition g.require t.passes t.fails = ground arith in
      made ∙ rw (passes, fails) (condition-required g.require g.limits)

  check_groups-every :
      (gs : List Group) (number failed left : ℕ) (acc passed : List Json)
      (diags lines : List String)
      → length gs ≤ failed
      → check_groups w limits p schedule number failed acc diags gs ≡ ok (left, passed, lines)
      → (left == (failed - length gs)) ≡ every group_passes gs
  unfolding check_groups remaining
  check_groups-every [] number failed left acc passed diags lines l h =
      let same : failed ≡ left = cc (ap (remaining failed) h) in ground arith
  check_groups-every (g ∷ gs) number failed left acc passed diags lines l h =
      let (r, e, h') = >>=-eq-ok (check_group w limits p schedule g) _ h in
      elim (Bool-cases r.passed) [
        | inl yes' ↦
            let ih : (left == (failed - 1 - length gs)) ≡ every group_passes gs =
              check_groups-every gs _ (failed - 1) left _ passed _ lines (omega arith)
                (rw yes' at h') in
            let same : failed - 1 - length gs ≡ failed - suc (length gs) = omega arith in
            let gp : group_passes g ≡ true = ap group_passed e ∙ yes' in rw (gp, ← same) ih
        | inr no' ↦
            let same : failed ≡ left = ap (remaining failed) (rw no' at h') in
            let gp : group_passes g ≡ false = ap group_passed e ∙ no' in
            rw (gp, ← same) (ground arith)
      ]

  -- An application that is checked without an exception passes exactly if each of its groups passes,
  -- or, for an inverted application, exactly if some group does not.
  pub check_application-every :
      (a : Application) (r : ApplicationResult)
      → check_application w limits p schedule a ≡ ok r
      → r.passed
        ≡ (if a.invert then not (every group_passes a.groups) else every group_passes a.groups)
  unfolding check_application
  check_application-every a r h =
      let ((left, passed, lines), e, h') =
        >>=-eq-ok (check_groups w limits p schedule 0 (length a.groups) [] [] a.groups) _ h in
      let none_left : length a.groups - length a.groups ≡ 0 = omega arith in
      let met : (left == 0) ≡ every group_passes a.groups =
        rw none_left at (
          check_groups-every a.groups 0 (length a.groups) left [] passed [] lines (omega arith)
            e) in
      let made : r.passed ≡ (if a.invert then not (left == 0) else left == 0) = ground arith in
      rw met at made
