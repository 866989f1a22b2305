-- ===== src/Identifier/RawOutput.antt =====
-- The identifiers of the type jq whose scripts give raw output.
use pscheduler.Common.{
  String, ◌≡◌, refl, ap, true, false, Option, List, Result, ok, err, ◌>>=◌, join, map,
}
use pscheduler.Json.{Json}
use pscheduler.World.{World}
use pscheduler.Proposal.{Hints, hints_json}
use pscheduler.JqFilter.{Filter, raw, shown, call, first, run}
use pscheduler.Identifier.{jq, jq_verdict, evaluate}

text_verdict : (s : String) → jq_verdict (first (raw s)) ≡ false
unfolding first jq_verdict
text_verdict String.[] = refl
text_verdict (String.◌∷◌ c s) = refl

raw_verdict :
    (w : World) (rs : Result (List Json))
    → jq_verdict ((rs >>= λ results. ok (raw (join "\n" (map (shown w) results)))) >>= first)
      ≡ false
unfolding jq_verdict
raw_verdict w (ok results) = text_verdict (join "\n" (map (shown w) results))
raw_verdict w (err e) = refl

-- An identifier of the type jq that asks for raw output never identifies, whatever its script gives
-- for the hints: the first character of a text is no boolean.
raw_output_identifies_nobody :
    (w : World) (f : Filter) (hints : Option Hints)
    → f.output_raw ≡ true
    → evaluate w (jq f) hints ≡ ok false
unfolding evaluate run call
raw_output_identifies_nobody w f hints e =
    rw e (ap ok (raw_verdict w (w.jq_run f.script (hints_json hints))))
