-- ===== src/Samples/CidrUpdates.antt =====
-- Two threads that evaluate a list of blocks from a URL.
use pscheduler.Common.{ℕ, String, ◌≡◌, refl, true, false, none, some, [], ◌∷◌, ok}
use pscheduler.CidrListUrl.{Settings, claim, store, fetched, transformed, fresh}
use pscheduler.CidrListUrl.Lines.{
  blocks, blocks_of, split_lines, cleaned, uncommented, lstrip, rstrip, is_space,
}
use pscheduler.CidrListUrl.Threads.{
  System, Steps, here, next, enter, pass_by, work, start, outside, working, leaving, phase_at,
  set_phase, advance,
}
use pscheduler.CidrListUrl.Exclusion.{IsExclusive, Steps-IsExclusive}
use pscheduler.CidrListUrl.Whole.{IsWhole, Steps-IsWhole}
use pscheduler.CidrListUrl.Release.{Frees, Steps-Frees}
use pscheduler.Samples.Worlds.{world}

abbrev settings : Settings
settings = record {
  update = 600;
  retry = 60;
  fail_state = false;
  transform = none;
  exclusions = [];
  accepts = λ s. true;
  search_best = λ cidrs ip. ok none;
}

abbrev one_in : System
one_in = advance (start 2) 0 working (record fresh { updating = true })

claimed : claim 5 fresh ≡ some (record fresh { updating = true })
unfolding claim
claimed = refl

refused : claim 6 one_in.shared ≡ none
unfolding claim
refused = refl

free : phase_at 0 (start 2).threads ≡ some outside
unfolding phase_at
free = refl

second_free : phase_at 1 one_in.threads ≡ some outside
unfolding phase_at set_phase
second_free = refl

first_in : phase_at 0 one_in.threads ≡ some working
unfolding phase_at set_phase
first_in = refl

abbrev answer : ℕ × String
answer = (200, "10.0.0.0/8 # ten\n\n::1/128\n")

abbrev updated : System
updated =
    advance one_in 0 leaving (store settings (fetched world settings answer) 7 8 one_in.shared)

-- The first thread claims the update, the second passes by, and the first stores the answer.
history : Steps world settings (start 2) updated
history =
    next (next (next here (enter 0 5 free claimed)) (pass_by 1 6 second_free refused))
      (work 0 answer 7 8 first_in)

two_blocks : updated.shared.cidrs ≡ "10.0.0.0/8" ∷ "::1/128" ∷ []
unfolding store fetched transformed blocks blocks_of split_lines cleaned uncommented lstrip rstrip
    is_space
two_blocks = refl

Steps-IsExclusive_example : IsExclusive updated
Steps-IsExclusive_example = Steps-IsExclusive world settings 2 updated history

Steps-IsWhole_example : IsWhole world settings (start 2) updated history updated.shared
Steps-IsWhole_example = Steps-IsWhole world settings 2 updated history

Steps-Frees_example : Frees world settings updated
Steps-Frees_example = Steps-Frees world settings 2 updated answer 7 8 history
