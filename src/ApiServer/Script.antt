-- ===== src/ApiServer/Script.antt =====
-- A handler as a script of what it asks of the database, of the plug-ins and of other servers, and of
-- how it goes on for each answer; and the responses of response.py.
pub mod Cases
pub mod Needs
use pscheduler.Common.{
  ℕ, ◌≡◌, String, Bool, true, false, concat, Option, none, some, List, [], ◌∷◌, Result, ok, err,
  Error, value_error, key_error, runtime_error, message,
}
use pscheduler.Json.{Json}
use pscheduler.World.{World, PluginReply}
use pscheduler.PsJson.{json_decomment, json_dump}

-- An HTTP response: status and body.
pub record Response : Type 0 where
  pub status : ℕ
  pub body : String

-- The statements that the handlers run. The texts of SQL are left out.
pub data Query : Type 0 where
  auth_key_is_valid : (name key : String) → Query
  task_hints_and_key : (task : String) → Query
  task_exists : (task : String) → Query
  task_and_duration test_and_spec : (task : String) → Query
  tasks_matching : (contained task : Option String) → Query
  api_task_post :
      (task : String) (participants : Json) (hints limits : String) (participant priority : Json)
      (uuid : Option String) (enabled : Bool) (diags : String)
      → Query
  api_task_disable api_task_enable set_limits_passed : (task argument : String) → Query
  runs_of :
      (task : String) (start end_time : Option String) (upcoming : Bool) (limit : Option ℕ) → Query
  proposed_times : (task : String) (start end_time : Option String) (priority : Json) → Query
  api_run_post :
      (task : String) (start : String) (run : Option String) (forbidden : Option String)
      (priority : Json) (diags : Option String)
      → Query
  first_run : (task : String) (future : Bool) → Query
  run_and_finished run_result run_exists delete_run : (task run : String) → Query
  set_part_data_full : (task run part : String) → Query
  set_result_full : (task run result : String) (succeeded : Bool) → Query

-- What comes of a statement: its row count and its rows, psycopg2's InternalError, or another
-- exception.
pub data Reply : Type 0 where
  rows : ℕ → List (List Json) → Reply
  refused : String → Reply
  failed : Error → Reply

-- `plugin_invoke`.
pub record Plugin : Type 0 where
  pub kind : String
  pub name : String
  pub operation : String
  pub stdin : String

-- `url_get` and `url_post`, with `throw=False`.
pub data Call : Type 0 where
  get : (url : String) (params : Json) → Call
  post : (url : String) (params body : Json) → Call

pub data Script : Type 0 where
  respond : Response → Script
  raise : Error → Script
  query : Query → (Reply → Script) → Script
  invoke : Plugin → (Result PluginReply → Script) → Script
  http : Call → (Result (ℕ × Json) → Script) → Script
  sleep : (milliseconds : ℕ) → Script → Script

abbrev pub replied : ℕ → String → Script
replied status text = respond (record { status = status; body = concat (text ∷ "\n" ∷ []) })

abbrev pub ok_text : String → Script
ok_text = replied 200

abbrev pub bad_request : String → Script
bad_request = replied 400

abbrev pub forbidden : String → Script
forbidden = replied 403

abbrev pub conflict : String → Script
conflict = replied 409

abbrev pub error : String → Script
error = replied 500

abbrev pub see_other : String → Script
see_other = replied 303

abbrev pub not_found : Script
not_found = replied 404 "Resource Not found."

abbrev pub no_can_do : String → Script
no_can_do text = replied 422 (concat ("Unable to complete request: " ∷ text ∷ []))

-- `ok_json` and `json_response`, but for pretty printing.
abbrev pub ok_json : World → Json → Script
ok_json w data' = replied 200 (json_dump w (json_decomment "_" true data'))

-- What follows a statement whose exceptions nothing catches.
unfoldable pub try {ℓ} : {A : Type ℓ} → Result A → (A → Script) → Script
try (err e) rest = raise e
try (ok a) rest = rest a

-- `except Exception as ex`.
unfoldable pub catch {ℓ} : {A : Type ℓ} → Result A → (String → Script) → (A → Script) → Script
catch (err e) handler rest = handler (message e)
catch (ok a) handler rest = rest a

-- `except ValueError as ex`.
unfoldable pub catch_value {ℓ} : {A : Type ℓ} → Result A → (String → Script) → (A → Script) → Script
catch_value (err (value_error e)) handler rest = handler e
catch_value (err e) handler rest = raise e
catch_value (ok a) handler rest = rest a

-- What follows a statement of which only the rows are awaited.
unfoldable pub fetched : Reply → Result (ℕ × List (List Json))
fetched (rows n found) = ok (n, found)
fetched (refused text) = err (runtime_error text)
fetched (failed e) = err e

-- `if`, between scripts.
unfoldable pub choose : Bool → Script → Script → Script
choose true met unmet = met
choose false met unmet = unmet

-- What follows a value, and what if there is none.
unfoldable pub given {ℓ} : {A : Type ℓ} → Option A → Script → (A → Script) → Script
given none missing rest = missing
given (some a) missing rest = rest a
