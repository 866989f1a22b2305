-- ===== src/CidrListUrl/Answers.antt =====
-- What the answers of the server mean, apart from how an update reads them.
use pscheduler.Common.{
  ℕ, String, ◌≡◌, ◌∙◌, sym, ap, refl, Bool, not, ◌&&◌, ◌==◌, str_eq, Option, none, some, List, [],
  ◌∷◌, Result, ok, err, value_error, key_error, type_error, index_error, runtime_error,
  assertion_error, jq_error, name_error, url_error, >>=-eq-ok, map, filter_by, Bool-cases, inl, inr,
  arith, ==→eq,
}
use mathlib.Core.Path.{subst}
use pscheduler.Json.{Json}
use pscheduler.World.{World}
use pscheduler.PsJson.{json_load}
use pscheduler.JqFilter.{Filter, Output, raw, many, call}
use pscheduler.CidrListUrl.{Settings, transformed, fetched, raw_text, unless_failed}
use pscheduler.CidrListUrl.Lines.{blocks, blocks_of, split_lines, cleaned}

-- A list of blocks: the lines of a text without their comments and the space around them, less those
-- that are empty or no block.
abbrev pub listing : (String → Bool) → String → List String
listing accepts text =
    filter_by (λ line. not (str_eq line "") && accepts line) (map cleaned (split_lines text))

-- The text that a filter makes of another: without a filter the same, and otherwise the raw output
-- for the JSON that is read from it.
abbrev pub Means : World → Option Filter → (text meant : String) → Type 0
Means w none text meant = meant ≡ text
Means w (some f) text meant =
    (json : Json) × (json_load w text ≡ ok json) × (call w f json ≡ ok (raw meant))

-- The list that an answer gives.
abbrev pub Gives : World → Settings → ℕ × String → List String → Type 0
Gives w c (status, text) cidrs =
    (status ≡ 200)
    × ((meant : String) × Means w c.transform text meant × (cidrs ≡ listing c.accepts meant))

blocks_of-filter_by :
    (accepts : String → Bool) (lines : List String)
    → blocks_of accepts lines
      ≡ filter_by (λ line. not (str_eq line "") && accepts line) (map cleaned lines)
unfolding blocks_of
blocks_of-filter_by accepts [] = refl
blocks_of-filter_by accepts (line ∷ lines) = ground (arith, blocks_of-filter_by accepts lines)

unless_failed-ok : (r : Result String) (t : String) → unless_failed r ≡ ok (some t) → r ≡ ok t
unfolding unless_failed
unless_failed-ok (ok s) t h = cc
unless_failed-ok (err (value_error e)) t h = absurd (cc)
unless_failed-ok (err (jq_error e)) t h = absurd (cc)
unless_failed-ok (err (key_error e)) t h = absurd (cc)
unless_failed-ok (err (type_error e)) t h = absurd (cc)
unless_failed-ok (err (index_error e)) t h = absurd (cc)
unless_failed-ok (err (runtime_error e)) t h = absurd (cc)
unless_failed-ok (err (assertion_error e)) t h = absurd (cc)
unless_failed-ok (err (name_error e)) t h = absurd (cc)
unless_failed-ok (err (url_error e)) t h = absurd (cc)

raw_text-ok : (output : Output) (t : String) → raw_text output ≡ ok t → output ≡ raw t
unfolding raw_text
raw_text-ok (raw s) t h = cc
raw_text-ok (many vs) t h = absurd (cc)

transformed-Means :
    (w : World) (transform : Option Filter) (text meant : String)
    → transformed w transform text ≡ ok (some meant)
    → Means w transform text meant
unfolding transformed
transformed-Means w none text meant h = cc
transformed-Means w (some f) text meant h =
    let (json, loaded, rest) = >>=-eq-ok (json_load w text) _ (unless_failed-ok _ meant h) in
    let (output, called, read) = >>=-eq-ok (call w f json) _ rest in
    (json, loaded, called ∙ ap ok (raw_text-ok output meant read))

Means-transformed :
    (w : World) (transform : Option Filter) (text meant : String)
    → Means w transform text meant
    → transformed w transform text ≡ ok (some meant)
unfolding transformed raw_text unless_failed
Means-transformed w none text meant h = rw h refl
Means-transformed w (some f) text meant (json, loaded, called) = rw (loaded, called) refl

-- An update stores a list exactly if the answer gives it.
pub Gives-fetched :
    (w : World) (c : Settings) (answer : ℕ × String) (cidrs : List String)
    → Gives w c answer cidrs
    → fetched w c answer ≡ ok (some cidrs)
unfolding fetched blocks
Gives-fetched w c (status, text) cidrs (good, (meant, means, e)) =
    rw
      (
        good,
        Means-transformed w c.transform text meant means,
        e,
        blocks_of-filter_by c.accepts (split_lines meant),
      )
      refl

listed-Gives :
    (w : World) (c : Settings) (text : String) (cidrs : List String) (new : Option String)
    → transformed w c.transform text ≡ ok new
    → ◌≡◌ {A = Result (Option (List String))}
        (ok (elim new [ none ↦ none | some t ↦ some (blocks c.accepts t) ]))
        (ok (some cidrs))
    → Gives w c (200, text) cidrs
unfolding blocks
listed-Gives w c text cidrs none e h = absurd (cc)
listed-Gives w c text cidrs (some t) e h =
    let same : blocks_of c.accepts (split_lines t) ≡ cidrs = cc in
    (
      refl,
      (
        t,
        transformed-Means w c.transform text t e,
        sym same ∙ blocks_of-filter_by c.accepts (split_lines t),
      ),
    )

pub fetched-Gives :
    (w : World) (c : Settings) (answer : ℕ × String) (cidrs : List String)
    → fetched w c answer ≡ ok (some cidrs)
    → Gives w c answer cidrs
unfolding fetched
fetched-Gives w c (status, text) cidrs h = elim (Bool-cases (status == 200)) [
  | inl good ↦
      let (new, e, rest) = >>=-eq-ok (transformed w c.transform text) _ (rw good at h) in
      let is_200 : status ≡ 200 = ==→eq status 200 good in
      subst (λ n. Gives w c (n, text) cidrs) (sym is_200) (listed-Gives w c text cidrs new e rest)
  | inr bad ↦ absurd (ground (arith, bad, h))
]
