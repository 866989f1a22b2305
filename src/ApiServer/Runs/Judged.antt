-- ===== src/ApiServer/Runs/Judged.antt =====
-- What the posting of a run carries of the limits.
use pscheduler.Common.{
  ℕ, zero, suc, ◌≡◌, refl, String, true, false, concat, Option, none, some, List, [], ◌∷◌, Result,
  ok, ◌>>=◌, Ensures, Ensures-bind, Ensures-ok, if◌then◌else◌,
}
use pscheduler.Json.{Json, Fields, as_dict, get}
use pscheduler.World.{World}
use pscheduler.Proposal.{Hints}
use pscheduler.LimitProcessor.{Processor, process, Judgement}
use pscheduler.ApiServer.Script.{
  Query, api_run_post, Reply, Script, respond, raise, query, invoke, http, sleep, fetched, error,
  conflict,
}
use pscheduler.ApiServer.Script.Cases.{
  try_either, catch_either, catch_value_either, given_either, choose_either,
}
use pscheduler.ApiServer.Requests.{Request, Host, with_access, admitted}
use pscheduler.ApiServer.Runs.Limits.{
  Evaluated, four, three, limit_input, evaluated, unpacked, diag_message, priority_json, Posted,
  with_message, post_run, answered, with_start, runs_post,
}
use pscheduler.ApiServer.Runs.Change.{
  one_changed, put_posted, full_put, put_result, partial_put, run_put_data, run_put,
}

-- The limit processor has judged a task that is to run at a time.
abbrev pub IsVerdict : World → Host → Option Processor → (start : String) → Judgement → Type 0
IsVerdict w h processor start j =
    (p : Processor) × (processor ≡ some p)
    × ((duration : Json) × (task : Fields) × (hints : Hints) × (process w p
            (record { task = limit_input h start duration task; hints = some hints }) false true
          ≡ ok j))

-- A run is posted with what the limit processor says of a task that runs at the run's time: its
-- priority and diagnostics, and a message if and only if it does not let the task pass.
abbrev pub IsJudged : World → Host → Option Processor → Query → Type 0
IsJudged w h processor (api_run_post task start run refusal priority diags) =
    (j : Judgement) × IsVerdict w h processor start j
    × (refusal
        ≡ (if j.passed then none else some (concat ("Run forbidden by limits:\n" ∷ j.diags ∷ []))))
    × (priority ≡ priority_json j.priority)
    × (diags ≡ some j.diags)
IsJudged w h processor q = Unit

-- Each statement that a script runs, whatever is answered.
abbrev pub Each : (Query → Type 0) → Script → Type 0
Each C (respond r) = Unit
Each C (raise e) = Unit
Each C (query q rest) = C q × ((r : _) → Each C (rest r))
Each C (invoke c rest) = (r : _) → Each C (rest r)
Each C (http c rest) = (r : _) → Each C (rest r)
Each C (sleep n rest) = Each C rest

module _ (w : World) (h : Host) (processor : Option Processor) (start : String) where
  -- Four values come of a verdict only.
  AreFour : Evaluated → Type 0
  AreFour (four j) = IsVerdict w h processor start j
  AreFour (three status) = Unit

  unpacked-IsVerdict :
      (e : Evaluated) → AreFour e → Ensures (IsVerdict w h processor start) (unpacked e)
  unfolding unpacked AreFour
  unpacked-IsVerdict (four j) v = v
  unpacked-IsVerdict (three status) v = tt

evaluated-AreFour :
    (w : World) (h : Host) (processor : Option Processor) (start : String)
    (found : ℕ × List (List Json))
    → Ensures (AreFour w h processor start) (evaluated w h processor start found)
unfolding evaluated AreFour
evaluated-AreFour w h processor start (zero, found) = tt
evaluated-AreFour w h none start (suc n, found) = tt
evaluated-AreFour w h (some p) start (suc n, (task_spec ∷ duration ∷ hints ∷ row) ∷ found) =
    let P = AreFour w h (some p) start in
    Ensures-bind P (as_dict task_spec) _ λ task e. Ensures-bind P (as_dict hints) _ λ m e'.
      Ensures-bind P _ _ λ known e''.
        Ensures-bind P _ (λ j. ok (four j))
          λ j judged.
            let v : IsVerdict w h (some p) start j = (p, refl, (duration, task, known, judged)) in v
evaluated-AreFour w h (some p) start (suc n, found) = tt

fetched-IsVerdict :
    (w : World) (h : Host) (processor : Option Processor) (start : String) (reply : Reply)
    → Ensures
        (IsVerdict w h processor start)
        (do found ← fetched reply; e ← evaluated w h processor start found; unpacked e)
fetched-IsVerdict w h processor start reply =
    Ensures-bind (IsVerdict w h processor start) (fetched reply) _ λ found e.
      Ensures-bind (IsVerdict w h processor start) (evaluated w h processor start found) _ λ x e'.
        unpacked-IsVerdict w h processor start x (
          Ensures-ok (AreFour w h processor start) _ (evaluated-AreFour w h processor start found)
            e')

module _ (w : World) (h : Host) (r : Request) (processor : Option Processor) where
  -- The statements of a handler.
  abbrev Judges : Script → Type 0
  Judges = Each (IsJudged w h processor)

  with_message-Judges :
      (respond' : String → Script) (s : Option String)
      → ((text : String) → Judges (respond' text))
      → Judges (with_message respond' s)
  unfolding with_message
  with_message-Judges respond' (some s) k = k s
  with_message-Judges respond' none k = tt

  post_run-Judges :
      (task start : String) (run : Option String) (rest : Posted → Script)
      → ((p : Posted) → Judges (rest p))
      → Judges (post_run w h r processor task start run rest)
  unfolding post_run diag_message
  post_run-Judges task start run rest k = (
    tt,
    λ reply.
        catch_either Judges _ _ _ (λ text. tt)
          λ j e.
            let verdict : IsVerdict w h processor start j =
              Ensures-ok (IsVerdict w h processor start) _
                (fetched-IsVerdict w h processor start reply) e in
            (
              (j, verdict, refl, refl, refl),
              λ answer. catch_either Judges _ _ _ (λ text. tt) λ p e'. k p,
            ),
  )

  -- Nothing more is asked once a run is posted.
  admitted-Judges : (rest : Script) (reply : Reply) → Judges rest → Judges (admitted h r rest reply)
  unfolding admitted
  admitted-Judges rest reply k =
      try_either Judges (λ e. tt) _ _
        λ owner e.
          given_either Judges owner.0 _ _ (λ e'. tt)
            λ requester e'. choose_either Judges _ _ _ (λ y. tt) (λ n. k)

  with_access-Judges :
      (task : String) (rest : Script) → Judges rest → Judges (with_access h r task rest)
  unfolding with_access
  with_access-Judges task rest k = (tt, λ reply. admitted-Judges rest reply k)

  answered-Judges : (task : String) (p : Posted) → Judges (answered w h r processor task p)
  unfolding answered
  answered-Judges task p =
      choose_either Judges _ _ _ (λ e. with_message-Judges conflict p.error_message (λ text. tt))
        λ e.
          given_either Judges p.error_message _ _
            (λ e'. try_either Judges (λ x. tt) _ _ (λ uuid u. tt)) (λ text e'. tt)

  with_start-Judges :
      (task : String) (s : Result String) (invalid : String → String) (rest : String → Script)
      → ((start : String) → Judges (rest start))
      → Judges (with_start w h r processor task s invalid rest)
  unfolding with_start
  with_start-Judges task s invalid rest k =
      choose_either Judges _ _ _ (λ e. tt)
        λ e. catch_value_either Judges (λ x. tt) s _ _ (λ text. tt) (λ start e'. k start)

  -- A POST of a run.
  runs_post-Judges : (task : String) → Judges (runs_post w h r processor task)
  unfolding runs_post
  runs_post-Judges task =
      choose_either Judges _ _ _ (λ e. tt)
        λ e. with_access-Judges task _ (
          with_start-Judges task _ _ _
            λ start. post_run-Judges task start none _ (answered-Judges task))

  one_changed-Judges : (reply : Reply) → Judges (one_changed reply)
  unfolding one_changed
  one_changed-Judges reply =
      try_either Judges (λ e. tt) _ _ λ found e. choose_either Judges _ _ _ (λ y. tt) (λ n. tt)

  put_posted-Judges :
      (task run : String) (p : Posted) → Judges (put_posted w h r processor task run p)
  unfolding put_posted
  put_posted-Judges task run p =
      choose_either Judges _ _ _ (λ e. with_message-Judges conflict p.error_message (λ text. tt))
        λ e.
          choose_either Judges _ _ _ (λ e'. with_message-Judges error p.error_message (λ text. tt))
            (λ e'. tt)

  partial_put-Judges :
      (task run : String) (m : Fields) → Judges (partial_put w h r processor task run m)
  unfolding partial_put put_result
  partial_put-Judges task run m =
      given_either Judges (get "part-data-full" m) _ _
        (λ e.
          given_either Judges (get "result-full" m) _ _ (λ e'. tt)
            λ full e'.
              given_either Judges (get "succeeded" m) _ _ (λ x. tt)
                λ succeeded x. (tt, one_changed-Judges))
        λ part e. (tt, one_changed-Judges)

  run_put_data-Judges :
      (task run : String) (data' : Json) → Judges (run_put_data w h r processor task run data')
  unfolding run_put_data full_put
  run_put_data-Judges task run data' = (
    tt,
    λ reply.
        try_either Judges (λ e. tt) _ _
          λ exists e.
            choose_either Judges _ _ _
              (λ y.
                with_start-Judges task _ _ _
                  λ start. post_run-Judges task start (some run) _ (put_posted-Judges task run))
              (λ n. try_either Judges (λ x. tt) _ _ λ m x. partial_put-Judges task run m),
  )

  run_put-Judges : (task run : String) → Judges (run_put w h r processor task run)
  unfolding run_put
  run_put-Judges task run =
      choose_either Judges _ _ _ (λ e. tt)
        λ e. with_access-Judges task _ (
          catch_value_either Judges (λ x. tt) _ _ _ (λ text. tt)
            λ data' e'. run_put_data-Judges task run data')

-- Whatever is answered, a POST and a PUT of a run post it only with a verdict of the limit processor
-- on a task that is to run at the run's time, together with the verdict's priority and diagnostics,
-- and as forbidden if and only if the verdict is not a pass.
pub posts-Judge :
    (w : World) (h : Host) (r : Request) (processor : Option Processor) (task run : String)
    → Each (IsJudged w h processor) (runs_post w h r processor task)
      × Each (IsJudged w h processor) (run_put w h r processor task run)
posts-Judge w h r processor task run =
    (runs_post-Judges w h r processor task, run_put-Judges w h r processor task run)
