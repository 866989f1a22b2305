-- ===== src/CidrListUrl/Whole.antt =====
-- Whole lists, whatever the threads do at once.
use pscheduler.Common.{
  ℕ, String, ◌≡◌, ◌⊎◌, ◌∙◌, sym, refl, inl, inr, Option, none, some, List, [], length, Result, ok,
  err,
}
use mathlib.Core.Path.{subst}
use pscheduler.World.{World}
use pscheduler.CidrListUrl.{Settings, Shared, claim, release, fetched, store}
use pscheduler.CidrListUrl.Threads.{System, enter, pass_by, work, leave, Steps, here, next, start}
use pscheduler.CidrListUrl.Exclusion.{claim-updating}
use pscheduler.CidrListUrl.Answers.{Gives, Gives-fetched, fetched-Gives}

-- The list of the last answer in a history that gives one; the empty one before the first.
abbrev pub IsLatest :
    (w : World) (c : Settings) (s t : System) → List String → Steps w c s t → Type 0
IsLatest w c s t cidrs here = cidrs ≡ []
IsLatest w c s t cidrs (next {t = u} before (work i answer asked now p)) =
    Gives w c answer cidrs
    ⊎ (((other : List String) → ¬ Gives w c answer other) × IsLatest w c s u cidrs before)
IsLatest w c s t cidrs (next {t = u} before (enter i now p h)) = IsLatest w c s u cidrs before
IsLatest w c s t cidrs (next {t = u} before (pass_by i now p h)) = IsLatest w c s u cidrs before
IsLatest w c s t cidrs (next {t = u} before (leave i p)) = IsLatest w c s u cidrs before

-- That list with its length.
abbrev pub IsWhole : (w : World) (c : Settings) (s t : System) → Steps w c s t → Shared → Type 0
IsWhole w c s t history shared =
    (shared.length ≡ length shared.cidrs) × IsLatest w c s t shared.cidrs history

claim-IsWhole :
    (w : World) (c : Settings) (now : ℕ) (s t : System) (history : Steps w c s t) (a b : Shared)
    → claim now a ≡ some b
    → IsWhole w c s t history a
    → IsWhole w c s t history b
claim-IsWhole w c now s t history a b h x =
    let (free, set, l, n) = claim-updating now a b h in rw (l, n) x

-- What an answer leaves.
abbrev IsStored : World → Settings → ℕ × String → (old new : Shared) → Type 0
IsStored w c answer old new =
    (new.length ≡ length new.cidrs)
    × (Gives w c answer new.cidrs
        ⊎ (((other : List String) → ¬ Gives w c answer other) × (new.cidrs ≡ old.cidrs)))

-- An answer of which an update stores nothing gives no list.
nothing_stored :
    (w : World) (c : Settings) (answer : ℕ × String) (r : Result (Option (List String)))
    (other : List String)
    → fetched w c answer ≡ r
    → ¬ (r ≡ ok (some other))
    → ¬ Gives w c answer other
nothing_stored w c answer r other h no' g = no' (sym h ∙ Gives-fetched w c answer other g)

store-IsStored :
    (w : World) (c : Settings) (answer : ℕ × String) (r : Result (Option (List String)))
    (asked now : ℕ) (s : Shared)
    → fetched w c answer ≡ r
    → s.length ≡ length s.cidrs
    → IsStored w c answer s (store c r asked now s)
unfolding store
store-IsStored w c answer (err e) asked now s h x =
    (x, inr ((λ other. nothing_stored w c answer (err e) other h (λ x. cc)), refl))
store-IsStored w c answer (ok none) asked now s h x =
    (x, inr ((λ other. nothing_stored w c answer (ok none) other h (λ x. cc)), refl))
store-IsStored w c answer (ok (some new)) asked now s h x =
    (refl, inl (fetched-Gives w c answer new h))

-- The list is replaced as a whole: however many threads evaluate at once and in whatever order their
-- steps come, the list is that of the last answer which a thread has received and which gives one,
-- with status 200 and a text that can be read, and empty before the first; it holds each block among
-- the lines of that text, in their order, and the length is that of the list.
pub Steps-IsWhole :
    (w : World) (c : Settings) (n : ℕ) (s : System) (history : Steps w c (start n) s)
    → IsWhole w c (start n) s history s.shared
unfolding release
Steps-IsWhole w c n s here = (refl, refl)
Steps-IsWhole w c n s (next {t = t} before (enter {shared = shared} i now p h)) =
    claim-IsWhole w c now (start n) t before t.shared shared h (Steps-IsWhole w c n t before)
Steps-IsWhole w c n s (next before (pass_by i now p h)) = Steps-IsWhole w c n s before
Steps-IsWhole w c n s (next {t = t} before (work i answer asked now p)) =
    let (l, latest) = Steps-IsWhole w c n t before in
    let (l', stored) = store-IsStored w c answer (fetched w c answer) asked now t.shared refl l in
    (
      l',
      elim stored [
        | inl given ↦ inl given
        | inr (none_given, same) ↦
            inr
              (none_given, subst (λ cidrs. IsLatest w c (start n) t cidrs before) (sym same) latest)
      ],
    )
Steps-IsWhole w c n s (next {t = t} before (leave i p)) = Steps-IsWhole w c n t before
