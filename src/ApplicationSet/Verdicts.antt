-- ===== src/ApplicationSet/Verdicts.antt =====
-- When a proposal is let pass, and what is reported of it.
use mathlib.Core.List.{Perm, Permᴰ}
use mathlib.Core.Logic.{∥∥₁_elim}
use mathlib.Core.Path.{ap₂}
use pscheduler.Common.{
  ℕ, ◌+◌, String, ◌≡◌, refl, ap, ◌∙◌, Bool, true, false, not, ◌&&◌, ◌||◌, List, [], ◌∷◌, ◌++◌,
  length, length-append, some_of, count_of, Result, ok, err, >>=-eq-ok, ltb, arith, if◌then◌else◌,
  Bool-cases, inl, inr,
}
use pscheduler.Json.{Json}
use pscheduler.World.{World}
use pscheduler.Proposal.{Proposal}
use pscheduler.LimitSet.{LimitSet}
use pscheduler.ApplicationSet.{
  Application, ApplicationResult, Verdict, applies, check_application, check_all,
  check_applications,
}

or_swap : (a b c : Bool) → (a || (b || c)) ≡ (b || (a || c))
or_swap a b c = ground arith

module _ (q : Application → Bool) where
  some_of-Permᴰ : {xs ys : List Application} → Permᴰ xs ys → some_of q xs ≡ some_of q ys
  some_of-Permᴰ Permᴰ.nil = refl
  some_of-Permᴰ (Permᴰ.cons e r) = ap₂ (λ x rest. q x || rest) e (some_of-Permᴰ r)
  some_of-Permᴰ (Permᴰ.swap {a = a} {b = b} {l = l} e f) =
      rw (← e, ← f) (or_swap (q a) (q b) (some_of q l))
  some_of-Permᴰ (Permᴰ.trans r s) = some_of-Permᴰ r ∙ some_of-Permᴰ s

  some_of-perm : {xs ys : List Application} → Perm xs ys → some_of q xs ≡ some_of q ys
  some_of-perm r = ∥∥₁_elim r (hlevel) some_of-Permᴰ

abbrev pub result_passed : Result ApplicationResult → Bool
result_passed (ok r) = r.passed
result_passed (err e) = false

abbrev pub result_stops : Result ApplicationResult → Bool
result_stops (ok r) = not r.passed && r.stop_on_failure
result_stops (err e) = false

module _ (w : World) (limits : LimitSet) (p : Proposal) (schedule : Bool)
    (classifiers : List String) where
  -- The application applies and passes.
  abbrev pub app_passes : Application → Bool
  app_passes a = applies classifiers a && result_passed (check_application w limits p schedule a)

  -- The application applies, fails and is one to stop on.
  abbrev pub app_stops : Application → Bool
  app_stops a = applies classifiers a && result_stops (check_application w limits p schedule a)

  -- What the loop guarantees of its verdict, from its variables on.
  record Outcome (n : ℕ) (apps : List Application) (v : Verdict) : Type 0 where
    verdict : v.passed ≡ ((ltb 0 n || some_of app_passes apps) && not (some_of app_stops apps))
    reported : v.passed ≡ true → length v.limits_passed ≡ n + count_of app_passes apps
    silent : v.passed ≡ false → v.limits_passed ≡ []

  check_all-Outcome :
      (apps : List Application) (n : ℕ) (diags : List String) (acc : List (List Json)) (v : Verdict)
      → length acc ≡ n
      → check_all w limits p schedule classifiers n diags acc apps ≡ ok v
      → Outcome n apps v
  unfolding check_all
  check_all-Outcome [] n diags acc v l h = record {
    verdict = ground arith;
    reported = λ e. ground arith;
    silent = λ e. ground arith;
  }
  check_all-Outcome (a ∷ apps) n diags acc v l h = elim (Bool-cases (applies classifiers a)) [
    | inr skip ↦
        let ih : Outcome n apps v = check_all-Outcome apps n diags acc v l (rw skip at h) in
        record {
          verdict = rw skip ih.verdict;
          reported = λ e. rw skip (omega (arith, ih.reported e));
          silent = ih.silent;
        }
    | inl use' ↦
        let (r, e, h') =
          >>=-eq-ok {B = Verdict} (check_application w limits p schedule a) _ (rw use' at h) in
        let passes : result_passed (check_application w limits p schedule a) ≡ r.passed =
          ap result_passed e in
        let stops : result_stops (check_application w limits p schedule a)
            ≡ (not r.passed && r.stop_on_failure) =
          ap result_stops e in
        elim (Bool-cases r.passed) [
          | inl y ↦
              let ih : Outcome (n + 1) apps v =
                check_all-Outcome apps (n + 1) _ (acc ++ r.limits_passed ∷ []) v
                  (omega (arith, length-append {0} acc (r.limits_passed ∷ []))) (rw y at h') in
              record {
                verdict = rw (use', passes, stops, y) (ground (arith, ih.verdict));
                reported = λ e. rw (use', passes, y) (omega (arith, ih.reported e));
                silent = ih.silent;
              }
          | inr n' ↦ elim (Bool-cases r.stop_on_failure) [
            | inl s ↦
                let stop : v.passed ≡ false = ground arith in
                let none' : v.limits_passed ≡ [] = ground arith in
                record {
                  verdict = rw (use', passes, stops, n', s, stop) (ground arith);
                  reported = λ e. absurd (cc);
                  silent = λ e. none';
                }
            | inr s ↦
                let ih : Outcome n apps v = check_all-Outcome apps n _ acc v l (rw (n', s) at h') in
                record {
                  verdict = rw (use', passes, stops, n', s) (ground (arith, ih.verdict));
                  reported = λ e. rw (use', passes, n') (omega (arith, ih.reported e));
                  silent = ih.silent;
                }
          ]
        ]
  ]

  outcome :
      (apps : List Application) (v : Verdict)
      → check_applications w limits p classifiers schedule apps ≡ ok v
      → Outcome 0 apps v
  unfolding check_applications
  outcome apps v h = check_all-Outcome apps 0 [] [] v refl h

  -- A check without an exception lets a proposal pass exactly if some application applies and passes
  -- and none applies, fails and is marked to stop on failure.
  pub check_applications-verdict :
      (apps : List Application) (v : Verdict)
      → check_applications w limits p classifiers schedule apps ≡ ok v
      → v.passed ≡ (some_of app_passes apps && not (some_of app_stops apps))
  check_applications-verdict apps v h = (outcome apps v h).verdict

  -- Of a proposal that passes one list of limits is reported for each application that applies and
  -- passes, and of any other none.
  check_applications-reported :
      (apps : List Application) (v : Verdict)
      → check_applications w limits p classifiers schedule apps ≡ ok v
      → length v.limits_passed ≡ (if v.passed then count_of app_passes apps else 0)
  check_applications-reported apps v h = elim (Bool-cases v.passed) [
    | inl y ↦ rw y (omega (arith, (outcome apps v h).reported y))
    | inr n ↦ rw (n, (outcome apps v h).silent n)
  ]

  -- The order of the applications does not matter to the verdict: two checks of the same
  -- applications in different orders agree, if neither raises an exception.
  check_applications-perm :
      (apps apps' : List Application) (v v' : Verdict)
      → Perm apps apps'
      → check_applications w limits p classifiers schedule apps ≡ ok v
      → check_applications w limits p classifiers schedule apps' ≡ ok v'
      → v.passed ≡ v'.passed
  check_applications-perm apps apps' v v' same h h' = cc (
    check_applications-verdict apps v h,
    check_applications-verdict apps' v' h',
    some_of-perm app_passes same,
    some_of-perm app_stops same,
  )
