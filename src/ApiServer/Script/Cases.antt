-- ===== src/ApiServer/Script/Cases.antt =====
-- What holds of a script that goes on in one of several ways holds if it does of each way.
use pscheduler.Common.{
  ◌≡◌, refl, String, Bool, true, false, Option, none, some, Result, ok, err, Error, value_error,
  key_error, type_error, index_error, runtime_error, assertion_error, jq_error, name_error,
  url_error, message,
}
use pscheduler.ApiServer.Script.{Script, raise, try, catch, catch_value, choose, given}

module _ (P : Script → Type 0) where
  module _ {A : Type 0} where
    pub try_either :
        ((e : Error) → P (raise e))
        → (r : Result A) (rest : A → Script) → ((a : A) → r ≡ ok a → P (rest a))
        → P (try r rest)
    unfolding try
    try_either g (err e) rest h = g e
    try_either g (ok a) rest h = h a refl

    pub catch_either :
        (r : Result A) (handler : String → Script) (rest : A → Script)
        → ((text : String) → P (handler text))
        → ((a : A) → r ≡ ok a → P (rest a))
        → P (catch r handler rest)
    unfolding catch
    catch_either (err e) handler rest h k = h (message e)
    catch_either (ok a) handler rest h k = k a refl

    pub catch_value_either :
        ((e : Error) → P (raise e))
        → (r : Result A) (handler : String → Script) (rest : A → Script)
        → ((text : String) → P (handler text))
        → ((a : A) → r ≡ ok a → P (rest a))
        → P (catch_value r handler rest)
    unfolding catch_value
    catch_value_either g (err (value_error e)) handler rest h k = h e
    catch_value_either g (err (key_error e)) handler rest h k = g _
    catch_value_either g (err (type_error e)) handler rest h k = g _
    catch_value_either g (err (index_error e)) handler rest h k = g _
    catch_value_either g (err (runtime_error e)) handler rest h k = g _
    catch_value_either g (err (assertion_error e)) handler rest h k = g _
    catch_value_either g (err (jq_error e)) handler rest h k = g _
    catch_value_either g (err (name_error e)) handler rest h k = g _
    catch_value_either g (err (url_error e)) handler rest h k = g _
    catch_value_either g (ok a) handler rest h k = k a refl

    pub given_either :
        (o : Option A) (missing : Script) (rest : A → Script)
        → (o ≡ none → P missing)
        → ((a : A) → o ≡ some a → P (rest a))
        → P (given o missing rest)
    unfolding given
    given_either none missing rest h k = h refl
    given_either (some a) missing rest h k = k a refl

  pub choose_either :
      (b : Bool) (s t : Script) → (b ≡ true → P s) → (b ≡ false → P t) → P (choose b s t)
  unfolding choose
  choose_either true s t h k = h refl
  choose_either false s t h k = k refl
