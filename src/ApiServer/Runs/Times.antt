-- ===== src/ApiServer/Runs/Times.antt =====
-- How long the handlers of runs wait.
use pscheduler.Common.{
  ℕ, zero, suc, ◌+◌, ◌*◌, ◌≡◌, refl, String, Bool, true, false, ◌||◌, ltb, str_eq, contains, Option,
  [], ◌∷◌, Result, ok, if◌then◌else◌, arith, Bool-cases, inl, inr,
}
use mathlib.Core.Path.{subst}
use pscheduler.Json.{ℤ, pos, Json, obj, end}
use pscheduler.World.{World}
use pscheduler.ApiServer.Script.{
  Reply, Script, respond, raise, query, invoke, http, sleep, try, catch, choose, given,
}
use pscheduler.ApiServer.Script.Cases.{try_either, catch_either, given_either, choose_either}
use pscheduler.ApiServer.Requests.{Request, Host, arg_boolean, arg_integer}
use pscheduler.ApiServer.Runs.Wait.{
  runs_first_run, find_run, is_awaited, is_unmerged, looked, poll, poll_run, search_run,
  default_wait, run_waited, run_get, run_response,
}

-- Whatever is answered, a script sleeps at most so many milliseconds in all.
abbrev pub Waits : ℕ → Script → Type 0
Waits n (respond r) = Unit
Waits n (raise e) = Unit
Waits n (query q rest) = (r : _) → Waits n (rest r)
Waits n (invoke c rest) = (r : _) → Waits n (rest r)
Waits n (http c rest) = (r : _) → Waits n (rest r)
Waits n (sleep m rest) = (k : ℕ) × (n ≡ m + k) × Waits k rest

-- More time is enough, too.
pub Waits-more : (n m : ℕ) (s : Script) → Waits n s → Waits (m + n) s
Waits-more n m (respond r) h = tt
Waits-more n m (raise e) h = tt
Waits-more n m (query q rest) h = λ r. Waits-more n m (rest r) (h r)
Waits-more n m (invoke c rest) h = λ r. Waits-more n m (rest r) (h r)
Waits-more n m (http c rest) h = λ r. Waits-more n m (rest r) (h r)
Waits-more n m (sleep a rest) (k, e, h) = (m + k, omega arith, Waits-more k m rest h)

-- The same time.
Waits-same : (n m : ℕ) (s : Script) → n ≡ m → Waits n s → Waits m s
Waits-same n m s e = subst (λ x. Waits x s) e

module _ (n : ℕ) where
  pub try-Waits :
      {A : Type 0} (r : Result A) (rest : A → Script)
      → ((a : A) → Waits n (rest a))
      → Waits n (try r rest)
  try-Waits r rest h = try_either (Waits n) (λ e. tt) r rest (λ a e. h a)

  pub catch-Waits :
      {A : Type 0} (r : Result A) (handler : String → Script) (rest : A → Script)
      → ((text : String) → Waits n (handler text))
      → ((a : A) → Waits n (rest a))
      → Waits n (catch r handler rest)
  catch-Waits r handler rest h k = catch_either (Waits n) r handler rest h (λ a e. k a)

  pub choose-Waits :
      (b : Bool) (s t : Script)
      → (b ≡ true → Waits n s)
      → (b ≡ false → Waits n t)
      → Waits n (choose b s t)
  choose-Waits = choose_either (Waits n)

  pub given-Waits :
      {A : Type 0} (o : Option A) (missing : Script) (rest : A → Script)
      → Waits n missing
      → ((a : A) → Waits n (rest a))
      → Waits n (given o missing rest)
  given-Waits o missing rest h k = given_either (Waits n) o missing rest (λ e. h) (λ a e. k a)

module _ (w : World) (h : Host) (r : Request) (task : String) where
  run_response-Waits :
      (n : ℕ) (run : String) (result : Json) → Waits n (run_response w h r task run result)
  unfolding run_response
  run_response-Waits n run result = try-Waits n _ _ λ v. tt

  looked-Waits :
      (n : ℕ) (wait_local wait_merged : Bool) (run : String) (again : Json → Script) (reply : Reply)
      → ((result : Json) → Waits n (again result))
      → Waits (500 + n) (looked w h r task wait_local wait_merged run again reply)
  unfolding looked
  looked-Waits n wait_local wait_merged run again reply k =
      catch-Waits (500 + n) _ _ _ (λ text. tt)
        λ found.
          choose-Waits (500 + n) _ _ _ (λ e. tt)
            λ e. try-Waits (500 + n) _ _ λ row. try-Waits (500 + n) _ _ λ waits.
              choose-Waits (500 + n) _ _ _ (λ e'. (n, refl, k row.0))
                (λ e'. run_response-Waits (500 + n) run row.0)

  poll-Waits :
      (wait_local wait_merged : Bool) (run : String) (tries : ℕ) (result : Json)
      → Waits (tries * 500) (poll w h r task wait_local wait_merged run tries result)
  unfolding poll
  poll-Waits wait_local wait_merged run zero result = run_response-Waits 0 run result
  poll-Waits wait_local wait_merged run (suc tries) result = λ reply.
      let last = poll w h r task wait_local wait_merged run in
      Waits-same (500 + tries * 500) (suc tries * 500)
        (looked w h r task wait_local wait_merged run (last tries) reply) (omega arith)
        (looked-Waits (tries * 500) wait_local wait_merged run (last tries) reply
          (poll-Waits wait_local wait_merged run tries))

  -- Without a wait nothing is awaited.
  row_once-Waits :
      (run : String) (again : Json → Script) (row : Json × Bool)
      → Waits 0 (
          try
            (is_awaited false false row)
            λ waits. choose waits (sleep 500 (again row.0)) (run_response w h r task run row.0))
  unfolding try is_awaited is_unmerged choose
  row_once-Waits run again row = run_response-Waits 0 run row.0

  looked_once-Waits :
      (run : String) (again : Json → Script) (reply : Reply)
      → Waits 0 (looked w h r task false false run again reply)
  unfolding looked
  looked_once-Waits run again reply =
      catch-Waits 0 _ _ _ (λ text. tt)
        λ found.
          choose-Waits 0 _ _ _ (λ e. tt) λ e. try-Waits 0 _ _ λ row. row_once-Waits run again row

  poll_once-Waits :
      (run : String) (result : Json) → Waits 0 (poll w h r task false false run 1 result)
  unfolding poll
  poll_once-Waits run result = λ reply. looked_once-Waits run _ reply

  poll_run-Waits :
      (wait_local wait_merged : Bool) (wait_time : ℕ) (run : String)
      → Waits
          (if wait_local || wait_merged then wait_time * 1000 else 0)
          (poll_run w h r task wait_local wait_merged wait_time run)
  unfolding poll_run
  poll_run-Waits false false wait_time run = poll_once-Waits run (obj end)
  poll_run-Waits false true wait_time run =
      Waits-same (wait_time * 2 * 500) (wait_time * 1000) _ (omega arith)
        (poll-Waits false true run (wait_time * 2) (obj end))
  poll_run-Waits true wait_merged wait_time run =
      Waits-same (wait_time * 2 * 500) (wait_time * 1000) _ (omega arith)
        (poll-Waits true wait_merged run (wait_time * 2) (obj end))

  find_run-Waits :
      (future waits : Bool) (n tries : ℕ) (rest : String → Script)
      → ((run : String) → Waits n (rest run))
      → Waits ((if waits then tries * 1000 else 0) + n) (find_run task future waits tries rest)
  unfolding find_run runs_first_run choose
  find_run-Waits future waits n zero rest k = tt
  find_run-Waits future false n (suc tries) rest k = λ reply.
      let bound = 0 + n in
      try-Waits bound _ _ λ found.
        given-Waits bound found _ _ (find_run-Waits future false n tries rest k)
          (λ run. Waits-more n 0 (rest run) (k run))
  find_run-Waits future true n (suc tries) rest k = λ reply.
      let bound = suc tries * 1000 + n in
      try-Waits bound _ _ λ found.
        given-Waits bound found _ _
          (tries * 1000 + n, omega arith, find_run-Waits future true n tries rest k)
          (λ run. Waits-more n (suc tries * 1000) (rest run) (k run))

  -- The milliseconds that a request may take for its waits.
  abbrev pub allowed : (wait_local wait_merged is_search : Bool) → (wait_time : ℕ) → ℕ
  allowed wait_local wait_merged is_search wait_time =
      (if is_search then wait_time * 2000 else 0)
      + (if wait_local || wait_merged then wait_time * 1000 else 0)

  search_run-Waits :
      (future : Bool) (n wait_time : ℕ) (rest : String → Script)
      → ((run : String) → Waits n (rest run))
      → Waits (wait_time * 2000 + n) (search_run w h r task future wait_time rest)
  unfolding search_run
  search_run-Waits future n wait_time rest k = elim (Bool-cases (ltb 0 wait_time)) [
    | inl y ↦ rw y (
        Waits-same (wait_time * 2 * 1000 + n) (wait_time * 2000 + n) _ (omega arith)
          (find_run-Waits future true n (wait_time * 2) rest k))
    | inr y ↦ rw y (
        Waits-same (wait_time * 2000 + (0 + n)) (wait_time * 2000 + n) _ (omega arith)
          (Waits-more (0 + n) (wait_time * 2000) _ (find_run-Waits future false n 1 rest k)))
  ]

  run_waited-Waits :
      (run : String) (wait_local wait_merged : Bool) (wait_time : ℕ)
      → Waits
          (allowed wait_local wait_merged (contains ("next" ∷ "first" ∷ []) run) wait_time)
          (run_waited w h r task run wait_local wait_merged (pos wait_time))
  unfolding run_waited
  run_waited-Waits run wait_local wait_merged wait_time =
      let total = allowed wait_local wait_merged (contains ("next" ∷ "first" ∷ []) run) wait_time in
      let polled = poll_run-Waits wait_local wait_merged wait_time in
      choose-Waits total (contains ("next" ∷ "first" ∷ []) run) _ _
        (λ e. rw e (search_run-Waits (str_eq run "next") _ wait_time _ polled))
        (λ e. rw e (Waits-more _ 0 _ (polled run)))

  -- Whatever is answered, a GET of a run that is asked to wait some seconds (30 if it does not say)
  -- sleeps at most that long for the result, if it waits for one, and twice that long for the run
  -- itself, if it asks for the first or the next.
  pub run_get-Waits :
      (run : String) (asked : Option ℤ) (wait_time : ℕ)
      → arg_integer h r "wait" ≡ ok asked
      → default_wait asked ≡ pos wait_time
      → Waits
          (allowed
            (arg_boolean r "wait-local")
            (arg_boolean r "wait-merged")
            (contains ("next" ∷ "first" ∷ []) run)
            wait_time)
          (run_get w h r task run)
  unfolding run_get try
  run_get-Waits run asked wait_time e d =
      let total =
        allowed (arg_boolean r "wait-local") (arg_boolean r "wait-merged")
          (contains ("next" ∷ "first" ∷ []) run) wait_time in
      choose-Waits total _ _ _ (λ x. tt)
        λ x.
          choose-Waits total _ _ _ (λ y. tt)
            λ y.
              choose-Waits total _ _ _ (λ z. tt)
                λ z.
                  rw (e, d)
                    (run_waited-Waits run (arg_boolean r "wait-local") (arg_boolean r "wait-merged")
                      wait_time)
