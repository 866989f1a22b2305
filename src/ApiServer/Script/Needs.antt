-- ===== src/ApiServer/Script/Needs.antt =====
-- What a handler must know before it changes anything.
use pscheduler.Common.{
  ◌≡◌, String, Bool, true, false, Option, none, some, Result, ok, if◌then◌else◌,
}
use pscheduler.ApiServer.Script.{
  Query, auth_key_is_valid, task_hints_and_key, task_exists, task_and_duration, test_and_spec,
  tasks_matching, runs_of, proposed_times, first_run, run_and_finished, run_result, run_exists, get,
  post, Script, respond, raise, query, invoke, http, sleep, try, catch, catch_value, choose, given,
}
use pscheduler.ApiServer.Script.Cases.{
  try_either, catch_either, catch_value_either, given_either, choose_either,
}

-- The statements that only read.
abbrev pub reads : Query → Bool
reads (auth_key_is_valid name key) = true
reads (task_hints_and_key task) = true
reads (task_exists task) = true
reads (task_and_duration task) = true
reads (test_and_spec task) = true
reads (tasks_matching contained task) = true
reads (runs_of task start end_time upcoming limit) = true
reads (proposed_times task start end_time priority) = true
reads (first_run task future) = true
reads (run_and_finished task run) = true
reads (run_result task run) = true
reads (run_exists task run) = true
reads q = false

-- Whatever is answered, nothing is written to the database and nothing posted to another server
-- unless `P` holds.
abbrev pub Needs : Type 0 → Script → Type 0
Needs P (respond r) = Unit
Needs P (raise e) = Unit
Needs P (query q rest) = (if reads q then Unit else P) × ((r : _) → Needs P (rest r))
Needs P (invoke p rest) = (r : _) → Needs P (rest r)
Needs P (http (get url params) rest) = (r : _) → Needs P (rest r)
Needs P (http (post url params body) rest) = P × ((r : _) → Needs P (rest r))
Needs P (sleep n rest) = Needs P rest

module _ (P : Type 0) where
  either : (b : Bool) → P → if b then Unit else P
  either true p = tt
  either false p = p

  pub anything : P → (s : Script) → Needs P s
  anything p (respond r) = tt
  anything p (raise e) = tt
  anything p (query q rest) = (either (reads q) p, λ r. anything p (rest r))
  anything p (invoke c rest) = λ r. anything p (rest r)
  anything p (http (get url params) rest) = λ r. anything p (rest r)
  anything p (http (post url params body) rest) = (p, λ r. anything p (rest r))
  anything p (sleep n rest) = anything p rest

  module _ {A : Type 0} where
    pub try-Needs :
        (r : Result A) (rest : A → Script)
        → ((a : A) → r ≡ ok a → Needs P (rest a))
        → Needs P (try r rest)
    try-Needs = try_either (Needs P) (λ e. tt)

    pub catch-Needs :
        (r : Result A) (handler : String → Script) (rest : A → Script)
        → ((text : String) → Needs P (handler text))
        → ((a : A) → Needs P (rest a))
        → Needs P (catch r handler rest)
    catch-Needs r handler rest h k = catch_either (Needs P) r handler rest h (λ a e. k a)

    pub catch_value-Needs :
        (r : Result A) (handler : String → Script) (rest : A → Script)
        → ((text : String) → Needs P (handler text))
        → ((a : A) → r ≡ ok a → Needs P (rest a))
        → Needs P (catch_value r handler rest)
    catch_value-Needs = catch_value_either (Needs P) (λ e. tt)

    pub given-Needs :
        (o : Option A) (missing : Script) (rest : A → Script)
        → (o ≡ none → Needs P missing)
        → ((a : A) → o ≡ some a → Needs P (rest a))
        → Needs P (given o missing rest)
    given-Needs = given_either (Needs P)

  pub choose-Needs :
      (b : Bool) (s t : Script)
      → (b ≡ true → Needs P s)
      → (b ≡ false → Needs P t)
      → Needs P (choose b s t)
  choose-Needs = choose_either (Needs P)
