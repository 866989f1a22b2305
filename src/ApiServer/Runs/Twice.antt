-- ===== src/ApiServer/Runs/Twice.antt =====
-- What comes of a search for a run that is not there.
use pscheduler.Common.{
  ℕ, zero, suc, ◌+◌, ◌*◌, ◌≡◌, ◌∙◌, ◌>>=◌, refl, sym, ap, String, Bool, true, false, ◌&&◌, ltb,
  str_eq, contains, Option, none, some, [], ◌∷◌, ok, arith, Bool-cases, inl, inr,
}
use mathlib.Core.Path.{subst}
use pscheduler.Json.{ℤ, pos}
use pscheduler.World.{World}
use pscheduler.ApiServer.Script.{
  Query, first_run, Reply, rows, Script, respond, raise, query, invoke, http, sleep, try, choose,
  given, fetched,
}
use pscheduler.ApiServer.Requests.{Request, Host, arg_boolean, arg_integer, uuid_is_valid}
use pscheduler.ApiServer.Runs.Wait.{
  runs_first_run, find_run, search_run, default_wait, run_waited, run_get, first_of,
}

-- How long a script sleeps, and the status that it responds with, if the database answers each
-- statement always alike and there are no plug-ins and no other servers.
abbrev pub spent : (Query → Reply) → Script → ℕ × Option ℕ
spent answers (respond r) = (0, some r.status)
spent answers (raise e) = (0, none)
spent answers (query q rest) = spent answers (rest (answers q))
spent answers (invoke c rest) = (0, none)
spent answers (http c rest) = (0, none)
spent answers (sleep n rest) = let (m, status) = spent answers rest in (n + m, status)

spent-runs_first_run :
    (answers : Query → Reply) (task : String) (future : Bool) (rest : Option String → Script)
    → answers (first_run task future) ≡ rows 0 []
    → spent answers (runs_first_run task future rest) ≡ spent answers (rest none)
unfolding runs_first_run try fetched first_of
spent-runs_first_run answers task future rest e =
    subst
      (λ x.
        spent answers (try (do found ← fetched x; first_of found) rest) ≡ spent answers (rest none))
      (sym e) refl

spent-find_run :
    (answers : Query → Reply) (task : String) (future : Bool) (tries : ℕ) (rest : String → Script)
    → answers (first_run task future) ≡ rows 0 []
    → spent answers (find_run task future true tries rest) ≡ (tries * 1000, some 404)
unfolding find_run choose given
spent-find_run answers task future zero rest e = refl
spent-find_run answers task future (suc tries) rest e =
    spent-runs_first_run answers task future _ e
    ∙ rw (spent-find_run answers task future tries rest e) (ap (λ n. (n, some 404)) (omega arith))

spent-search_run :
    (w : World) (h : Host) (r : Request) (answers : Query → Reply) (task : String) (future : Bool)
    (wait_time : ℕ) (rest : String → Script)
    → answers (first_run task future) ≡ rows 0 []
    → spent answers (search_run w h r task future wait_time rest)
      ≡ (2 * (wait_time * 1000), some 404)
unfolding search_run find_run choose given
spent-search_run w h r answers task future wait_time rest e = elim (Bool-cases (ltb 0 wait_time)) [
  | inl y ↦
      rw (y, spent-find_run answers task future (wait_time * 2) rest e)
        (ap (λ n. (n, some 404)) (omega arith))
  | inr y ↦
      rw y
        (spent-runs_first_run answers task future _ e ∙ ap (λ n. (n, some 404)) (ground (arith, y)))
]

-- A GET of the first or the next run of a task that has no such run answers with 404 after twice
-- the time that it is asked to wait.
pub run_get-twice :
    (w : World) (h : Host) (r : Request) (task run : String) (answers : Query → Reply)
    (asked : Option ℤ) (wait_time : ℕ)
    → uuid_is_valid h task ≡ true
    → contains ("first" ∷ "next" ∷ []) run ≡ true
    → arg_boolean r "wait-local" && arg_boolean r "wait-merged" ≡ false
    → arg_integer h r "wait" ≡ ok asked
    → default_wait asked ≡ pos wait_time
    → answers (first_run task (str_eq run "next")) ≡ rows 0 []
    → spent answers (run_get w h r task run) ≡ (2 * (wait_time * 1000), some 404)
unfolding run_get run_waited search_run choose try
run_get-twice w h r task run answers asked wait_time v f b e d nothing =
    let named : contains ("next" ∷ "first" ∷ []) run ≡ true = ground (arith, f) in
    rw (v, f, b, e, d, named)
      (spent-search_run w h r answers task (str_eq run "next") wait_time _ nothing)
