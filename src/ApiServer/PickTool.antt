-- ===== src/ApiServer/PickTool.antt =====
-- `pick_tool` of tasks.py: a tool that all participants offer.
pub mod Tallies
pub mod Sorting
pub mod Best
use pscheduler.Common.{
  ℕ, suc, ◌+◌, String, Bool, true, false, ◌==◌, leb, str_eq, lookup, has_key, length, Option, none,
  some, List, [], ◌∷◌, Result, ok, err, type_error, ◌>>=◌, if◌then◌else◌,
}
use pscheduler.Json.{Json, null, arr, items, get_item, as_text, as_list}

-- A dict of numbers, and `d[key] += n` with its handler of a KeyError.
abbrev pub Numbers : Type 0
Numbers = List (String × ℕ)

unfoldable pub add_to : String → ℕ → Numbers → Numbers
add_to key n [] = (key, n) ∷ []
add_to key n ((k, m) ∷ d) =
    let rest = add_to key n d in if str_eq k key then (k, m + n) ∷ d else (k, m) ∷ rest

-- `tool_list[position]['name']` of each position; None where the list is None.
names_of : List Json → Result (List String)
names_of [] = ok []
names_of (v ∷ vs) = do
  n ← get_item v "name"
  name ← as_text n
  names ← names_of vs
  ok (name ∷ names)

unfoldable pub tools_of : Json → Result (Option (List String))
unfolding names_of
tools_of null = ok none
tools_of v = do vs ← as_list v; names ← names_of vs; ok (some names)

-- The two dicts: in how many lists a tool is, and the sum of its positions.
pub record Tally : Type 0 where
  pub count : Numbers
  pub score : Numbers

-- One list, from a position on.
unfoldable pub tally_list : ℕ → List String → Tally → Tally
tally_list position [] t = t
tally_list position (tool ∷ tools) t =
    tally_list (suc position) tools
      (record { count = add_to tool 1 t.count; score = add_to tool position t.score })

unfoldable pub tally_lists : List (Option (List String)) → Tally → Tally
tally_lists [] t = t
tally_lists (none ∷ lists) t = tally_lists lists t
tally_lists (some tools ∷ lists) t = tally_lists lists (tally_list 0 tools t)

-- `score[tool]`; each tool with a count has a score.
abbrev pub value : String → Numbers → ℕ
value key d = elim (lookup key d) [ none ↦ 0 | some n ↦ n ]

-- The tools that all lists have, with their scores.
unfoldable pub common_of : ℕ → Numbers → Numbers → Numbers
common_of participants score [] = []
common_of participants score ((tool, n) ∷ count) =
    let rest = common_of participants score count in
    if n == participants then (tool, value tool score) ∷ rest else rest

-- `sorted(..., key=lambda value: value[1])`, which keeps the order of equal scores.
unfoldable pub insert : String × ℕ → Numbers → Numbers
insert x [] = x ∷ []
insert x (y ∷ ys) = let rest = insert x ys in if leb x.1 y.1 then x ∷ y ∷ ys else y ∷ rest

unfoldable pub sorted : Numbers → Numbers
sorted [] = []
sorted (x ∷ xs) = insert x (sorted xs)

unfoldable pub first_tool : Numbers → Option String
first_tool [] = none
first_tool ((tool, n) ∷ rest) = some tool

-- The first of the wanted tools that is among the common ones.
unfoldable pub first_wanted : List String → Numbers → Option String
first_wanted [] common = none
first_wanted (candidate ∷ pick_from) common =
    let rest = first_wanted pick_from common in
    if has_key candidate common then some candidate else rest

-- The choice, from the names in the lists.
unfoldable pub pick : List (Option (List String)) → Option (List String) → Option String
pick lists pick_from =
    let t = tally_lists lists (record { count = []; score = [] }) in
    let common = common_of (length lists) t.score t.count in
    elim pick_from [ none ↦ first_tool (sorted common) | some wanted ↦ first_wanted wanted common ]

all_tools : List Json → Result (List (Option (List String)))
all_tools [] = ok []
all_tools (v ∷ vs) = do tools ← tools_of v; rest ← all_tools vs; ok (tools ∷ rest)

-- `pick_tool(lists, pick_from)`.
unfoldable pub pick_tool : List Json → Option (List String) → Result (Option String)
unfolding all_tools
pick_tool lists pick_from = do tools ← all_tools lists; ok (pick tools pick_from)
