-- ===== src/ApiServer/PickTool/Best.antt =====
-- The tool that is picked.
use pscheduler.Common.{
  ℕ, suc, ◌≤◌, String, ◌≡◌, ◌∙◌, refl, Bool, true, false, ◌==◌, str_eq, contains, AllDistinct,
  Bool-cases, inl, inr, arith, eq_iff, ==→eq, Option-cases, lookup, length, All, Option, none, some,
  List, [], ◌∷◌, if◌then◌else◌,
}
use mathlib.Core.Path.{subst}
use pscheduler.ApiServer.PickTool.{
  Numbers, Tally, tally_lists, value, common_of, sorted, first_tool, pick,
}
use pscheduler.ApiServer.PickTool.Tallies.{
  times, total_times, total_places, count-tally_lists, score-tally_lists, value-each,
  AllDistinct-tally_lists,
}
use pscheduler.ApiServer.PickTool.Sorting.{
  sorted-All, sorted-IsLeastFirst, sorted-back, IsLeastFirst,
}

-- The first of a list that begins with a least score, and what holds of all of its elements.
first-least :
    (P : String × ℕ → Type 0) (xs : Numbers) (tool : String)
    → first_tool xs ≡ some tool
    → All P xs
    → IsLeastFirst xs
    → (n : ℕ) × P (tool, n) × All (λ y. n ≤ y.1) xs
unfolding first_tool
first-least P [] tool h p l = absurd (cc)
first-least P ((t, n) ∷ xs) tool h (p, ps) l =
    let same : t ≡ tool = cc in (n, subst (λ u. P (u, n)) same p, (omega arith, l))

first_tool-sorted :
    (P : String × ℕ → Type 0) (xs : Numbers) (tool : String)
    → first_tool (sorted xs) ≡ some tool
    → All P xs
    → (n : ℕ) × P (tool, n) × All (λ y. n ≤ y.1) xs
first_tool-sorted P xs tool h p =
    let (n, q, l) = first-least P (sorted xs) tool h (sorted-All P xs p) (sorted-IsLeastFirst xs) in
    (n, q, sorted-back (λ y. n ≤ y.1) xs l)

-- What is common is in the dict of counts with the number of participants, and the reverse.
common_of-All :
    (participants : ℕ) (score count full : Numbers)
    → All (λ y. value y.0 full ≡ y.1) count
    → All
        (λ y. (value y.0 full ≡ participants) × (y.1 ≡ value y.0 score))
        (common_of participants score count)
unfolding common_of
common_of-All participants score [] full h = tt
common_of-All participants score ((tool, n) ∷ count) full (v, h) =
    elim (Bool-cases (n == participants)) [
      | inl e ↦
          rw e ((v ∙ ==→eq n participants e, refl), common_of-All participants score count full h)
      | inr e ↦ rw e (common_of-All participants score count full h)
    ]

without_first :
    (b : Bool) (Q : String × ℕ → Type 0) (x : String × ℕ) (xs : Numbers)
    → All Q (if b then x ∷ xs else xs)
    → All Q xs
without_first true Q x xs (q, h) = h
without_first false Q x xs h = h

common_of-there :
    (Q : String × ℕ → Type 0) (participants : ℕ) (score count : Numbers) (u : String)
    → lookup u count ≡ some participants
    → All Q (common_of participants score count)
    → Q (u, value u score)
unfolding common_of
common_of-there Q participants score [] u h q = absurd (cc)
common_of-there Q participants score ((tool, n) ∷ count) u h q = elim (Bool-cases (str_eq tool u)) [
  | inl e ↦
      let same : tool ≡ u = (eq_iff tool u).0 e in
      let all : (n == participants) ≡ true = ground (arith, e, h) in
      let (first, rest) : Q (tool, value tool score) × All Q (common_of participants score count) =
        subst
          (λ b. All Q (
            if b
            then (tool, value tool score) ∷ common_of participants score count
            else common_of participants score count))
          all q in
      subst (λ t. Q (t, value t score)) same first
  | inr e ↦
      let later : lookup u count ≡ some participants = ground (arith, e, h) in
      common_of-there Q participants score count u later (without_first (n == participants) Q _ _ q)
]

-- A list of tools that holds the tool.
abbrev pub Offers : String → Option (List String) → Type 0
Offers t none = ◌≡◌ {A = Bool} true false
Offers t (some tools) = contains tools t ≡ true

-- No tool stands twice in a list.
abbrev pub AreDistinct : Option (List String) → Type 0
AreDistinct none = Unit
AreDistinct (some tools) = AllDistinct tools

times-contains :
    (t : String) (xs : List String) → AllDistinct xs → times t xs ≡ (if contains xs t then 1 else 0)
times-contains t [] d = refl
times-contains t (x ∷ xs) (fresh, d) = elim (Bool-cases (str_eq x t)) [
  | inl e ↦
      let same : x ≡ t = (eq_iff x t).0 e in
      let alone : contains xs t ≡ false = subst (λ u. contains xs u ≡ false) same fresh in
      ground (arith, times-contains t xs d, e, alone)
  | inr e ↦ ground (arith, times-contains t xs d, e)
]

times_le : (t : String) (xs : List String) → AllDistinct xs → times t xs ≤ 1
times_le t xs d = ground (arith, times-contains t xs d)

total_times_le :
    (t : String) (lists : List (Option (List String)))
    → All AreDistinct lists
    → total_times t lists ≤ length lists
total_times_le t [] d = omega arith
total_times_le t (none ∷ lists) (d, ds) = omega (arith, total_times_le t lists ds)
total_times_le t (some tools ∷ lists) (d, ds) =
    omega (arith, total_times_le t lists ds, times_le t tools d)

-- A tool is in as many lists as there are exactly if it is in each.
All-Offers :
    (t : String) (lists : List (Option (List String)))
    → All AreDistinct lists
    → total_times t lists ≡ length lists
    → All (Offers t) lists
All-Offers t [] d e = tt
All-Offers t (none ∷ lists) (d, ds) e = absurd (omega (arith, total_times_le t lists ds))
All-Offers t (some tools ∷ lists) (d, ds) e =
    let most = times_le t tools d in
    let others = total_times_le t lists ds in
    let here : times t tools ≡ 1 = omega arith in
    (ground (arith, times-contains t tools d, here), All-Offers t lists ds (omega arith))

Offers-All :
    (t : String) (lists : List (Option (List String)))
    → All AreDistinct lists
    → All (Offers t) lists
    → total_times t lists ≡ length lists
Offers-All t [] d h = refl
Offers-All t (none ∷ lists) (d, ds) (h, hs) = absurd (cc)
Offers-All t (some tools ∷ lists) (d, ds) (h, hs) =
    let here : times t tools ≡ 1 = ground (arith, times-contains t tools d, h) in
    omega (arith, here, Offers-All t lists ds hs)

lookup-value : (t : String) (n : ℕ) (d : Numbers) → value t d ≡ suc n → lookup t d ≡ some (suc n)
lookup-value t n d h = elim (Option-cases (lookup t d)) [
  | inl e ↦ absurd (ground (arith, e, h))
  | inr (m, e) ↦ ground (arith, e, h)
]

abbrev tallied : List (Option (List String)) → Tally
tallied lists = tally_lists lists (record { count = []; score = [] })

picked-Offers :
    (first : Option (List String)) (more : List (Option (List String))) (tool : String)
    → All AreDistinct (first ∷ more)
    → pick (first ∷ more) none ≡ some tool
    → All (Offers tool) (first ∷ more)
      × ((other : String)
          → All (Offers other) (first ∷ more)
          → total_places tool (first ∷ more) ≤ total_places other (first ∷ more))
unfolding pick
picked-Offers first more tool d h =
    let lists = first ∷ more in
    let t = tallied lists in
    let n = length lists in
    let common = common_of n t.score t.count in
    let exact =
      value-each t.count (AllDistinct-tally_lists lists (record { count = []; score = [] }) tt) in
    let (score, (counted, scored), least) =
      first_tool-sorted (λ y. (value y.0 t.count ≡ n) × (y.1 ≡ value y.0 t.score)) common tool h
        (common_of-All n t.score t.count t.count exact) in
    let count_is = λ (u : String). count-tally_lists u lists (record { count = []; score = [] }) in
    let score_is = λ (u : String). score-tally_lists u lists (record { count = []; score = [] }) in
    (
      All-Offers tool lists d (omega (arith, count_is tool, counted)),
      λ other offers.
          let there : lookup other t.count ≡ some n =
            lookup-value other (length more) t.count
              (omega (arith, count_is other, Offers-All other lists d offers)) in
          let below = common_of-there (λ y. score ≤ y.1) n t.score t.count other there least in
          omega (arith, below, scored, score_is tool, score_is other),
    )

nothing_first : (xs : Numbers) → first_tool xs ≡ none → All (λ y. ◌≡◌ {A = Bool} true false) xs
unfolding first_tool
nothing_first [] h = tt
nothing_first ((t, n) ∷ xs) h = absurd (cc)

pick-some :
    (first : Option (List String)) (more : List (Option (List String))) (offered : String)
    → All AreDistinct (first ∷ more)
    → All (Offers offered) (first ∷ more)
    → (tool : String) × (pick (first ∷ more) none ≡ some tool)
unfolding pick
pick-some first more offered d offers =
    let lists = first ∷ more in
    let t = tallied lists in
    let common = common_of (length lists) t.score t.count in
    let counted = count-tally_lists offered lists (record { count = []; score = [] }) in
    let there : lookup offered t.count ≡ some (length lists) =
      lookup-value offered (length more) t.count
        (omega (arith, counted, Offers-All offered lists d offers)) in
    elim (Option-cases (first_tool (sorted common))) [
      | inr found ↦ found
      | inl e ↦
          let nothing =
            sorted-back (λ y. ◌≡◌ {A = Bool} true false) common (nothing_first (sorted common) e) in
          let impossible : ◌≡◌ {A = Bool} true false =
            common_of-there (λ y. ◌≡◌ {A = Bool} true false) (length lists) t.score t.count offered
              there nothing in
          absurd (cc)
    ]

-- If some tool is in each of the lists, there being one list at least and none with a tool twice,
-- then without a wish a tool is picked that is in each of them too, and of these tools it is one
-- with the least sum of its positions.
pub pick-least :
    (first : Option (List String)) (more : List (Option (List String))) (offered : String)
    → All AreDistinct (first ∷ more)
    → All (Offers offered) (first ∷ more)
    → (tool : String) × (pick (first ∷ more) none ≡ some tool)
      × All (Offers tool) (first ∷ more)
      × ((other : String)
          → All (Offers other) (first ∷ more)
          → total_places tool (first ∷ more) ≤ total_places other (first ∷ more))
pick-least first more offered d offers =
    let (tool, e) = pick-some first more offered d offers in
    let (offered_by_all, least) = picked-Offers first more tool d e in
    (tool, e, offered_by_all, least)
