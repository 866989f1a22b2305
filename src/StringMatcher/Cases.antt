-- ===== src/StringMatcher/Cases.antt =====
-- What the options of a string matcher mean.
use pscheduler.Common.{String, ◌≡◌, ◌≢◌, true, arith}
use pscheduler.World.{World}
use pscheduler.StringMatcher.{regex, StringMatcher, lower, raw_matches, matches}

-- A matcher of a text that disregards case gives the same answer for any two texts that differ in
-- case only, whether it looks for the whole text or for a part, inverted or not.
matches-lower :
    (w : World) (m : StringMatcher) (s t : String)
    → m.case_insensitive ≡ true
    → m.style ≢ regex
    → lower s ≡ lower t
    → matches w m s ≡ matches w m t
unfolding matches raw_matches
matches-lower w m s t a b c = ground arith
