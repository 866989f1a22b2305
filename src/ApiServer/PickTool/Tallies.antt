-- ===== src/ApiServer/PickTool/Tallies.antt =====
-- What the two dicts of `pick_tool` hold.
use pscheduler.Common.{
  ℕ, suc, ◌+◌, String, ◌≡◌, refl, false, ◌||◌, str_eq, contains, AllDistinct, Bool-cases, inl, inr,
  arith, eq_iff, keys, All, Option, none, some, List, [], ◌∷◌, if◌then◌else◌,
}
use pscheduler.ApiServer.PickTool.{Numbers, add_to, Tally, tally_list, tally_lists, value}

abbrev pub if_same : String → String → ℕ → ℕ
if_same s t n = if str_eq s t then n else 0

pub value-add_to :
    (t key : String) (n : ℕ) (d : Numbers) → value t (add_to key n d) ≡ value t d + if_same key t n
unfolding add_to
value-add_to t key n [] = ground arith
value-add_to t key n ((k, m) ∷ d) =
    ground (arith, value-add_to t key n d, eq_iff k key, eq_iff k t, eq_iff key t)

-- How often a tool is in a list, and the sum of its places there.
abbrev pub times : String → List String → ℕ
times t [] = 0
times t (x ∷ xs) = if_same x t 1 + times t xs

abbrev pub places : ℕ → String → List String → ℕ
places position t [] = 0
places position t (x ∷ xs) = if_same x t position + places (suc position) t xs

count-tally_list :
    (t : String) (position : ℕ) (tools : List String) (s : Tally)
    → value t (tally_list position tools s).count ≡ value t s.count + times t tools
unfolding tally_list
count-tally_list t position [] s = omega arith
count-tally_list t position (x ∷ tools) s =
    let next : Tally = record { count = add_to x 1 s.count; score = add_to x position s.score } in
    omega (arith, count-tally_list t (suc position) tools next, value-add_to t x 1 s.count)

score-tally_list :
    (t : String) (position : ℕ) (tools : List String) (s : Tally)
    → value t (tally_list position tools s).score ≡ value t s.score + places position t tools
unfolding tally_list
score-tally_list t position [] s = omega arith
score-tally_list t position (x ∷ tools) s =
    let next : Tally = record { count = add_to x 1 s.count; score = add_to x position s.score } in
    omega (arith, score-tally_list t (suc position) tools next, value-add_to t x position s.score)

abbrev pub total_times : String → List (Option (List String)) → ℕ
total_times t [] = 0
total_times t (none ∷ lists) = total_times t lists
total_times t (some tools ∷ lists) = times t tools + total_times t lists

abbrev pub total_places : String → List (Option (List String)) → ℕ
total_places t [] = 0
total_places t (none ∷ lists) = total_places t lists
total_places t (some tools ∷ lists) = places 0 t tools + total_places t lists

pub count-tally_lists :
    (t : String) (lists : List (Option (List String))) (s : Tally)
    → value t (tally_lists lists s).count ≡ value t s.count + total_times t lists
unfolding tally_lists
count-tally_lists t [] s = omega arith
count-tally_lists t (none ∷ lists) s = count-tally_lists t lists s
count-tally_lists t (some tools ∷ lists) s =
    omega (arith, count-tally_lists t lists (tally_list 0 tools s), count-tally_list t 0 tools s)

pub score-tally_lists :
    (t : String) (lists : List (Option (List String))) (s : Tally)
    → value t (tally_lists lists s).score ≡ value t s.score + total_places t lists
unfolding tally_lists
score-tally_lists t [] s = omega arith
score-tally_lists t (none ∷ lists) s = score-tally_lists t lists s
score-tally_lists t (some tools ∷ lists) s =
    omega (arith, score-tally_lists t lists (tally_list 0 tools s), score-tally_list t 0 tools s)

contains-keys-add_to :
    (s key : String) (n : ℕ) (d : Numbers)
    → contains (keys (add_to key n d)) s ≡ (contains (keys d) s || str_eq key s)
unfolding add_to
contains-keys-add_to s key n [] = ground arith
contains-keys-add_to s key n ((k, m) ∷ d) =
    ground (arith, contains-keys-add_to s key n d, eq_iff k key, eq_iff k s, eq_iff key s)

AllDistinct-add_to :
    (key : String) (n : ℕ) (d : Numbers)
    → AllDistinct (keys d)
    → AllDistinct (keys (add_to key n d))
unfolding add_to
AllDistinct-add_to key n [] h = (refl, tt)
AllDistinct-add_to key n ((k, m) ∷ d) (fresh, h) = elim (Bool-cases (str_eq k key)) [
  | inl e ↦ rw e (fresh, h)
  | inr e ↦ rw e (
    ground (arith, contains-keys-add_to k key n d, fresh, e, eq_iff k key, eq_iff key k),
    AllDistinct-add_to key n d h,
  )
]

AllDistinct-tally_list :
    (position : ℕ) (tools : List String) (s : Tally)
    → AllDistinct (keys s.count)
    → AllDistinct (keys (tally_list position tools s).count)
unfolding tally_list
AllDistinct-tally_list position [] s h = h
AllDistinct-tally_list position (x ∷ tools) s h =
    AllDistinct-tally_list (suc position) tools
      (record { count = add_to x 1 s.count; score = add_to x position s.score })
      (AllDistinct-add_to x 1 s.count h)

pub AllDistinct-tally_lists :
    (lists : List (Option (List String))) (s : Tally)
    → AllDistinct (keys s.count)
    → AllDistinct (keys (tally_lists lists s).count)
unfolding tally_lists
AllDistinct-tally_lists [] s h = h
AllDistinct-tally_lists (none ∷ lists) s h = AllDistinct-tally_lists lists s h
AllDistinct-tally_lists (some tools ∷ lists) s h =
    AllDistinct-tally_lists lists (tally_list 0 tools s) (AllDistinct-tally_list 0 tools s h)

value-cons :
    (k : String) (m : ℕ) (d e : Numbers)
    → contains (keys e) k ≡ false
    → All (λ y. value y.0 d ≡ y.1) e
    → All (λ y. value y.0 ((k, m) ∷ d) ≡ y.1) e
value-cons k m d [] fresh h = tt
value-cons k m d ((j, n) ∷ e) fresh (v, h) =
    (ground (arith, v, fresh, eq_iff j k, eq_iff k j), value-cons k m d e (ground (arith, fresh)) h)

-- In a dict each key has the value that stands by it.
pub value-each : (d : Numbers) → AllDistinct (keys d) → All (λ y. value y.0 d ≡ y.1) d
value-each [] h = tt
value-each ((k, m) ∷ d) (fresh, h) =
    (ground (arith, eq_iff k k), value-cons k m d d fresh (value-each d h))
