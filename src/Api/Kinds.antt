-- ===== src/Api/Kinds.antt =====
-- `api_is_task` and `api_is_run` of api.py.
use Prim.Native.Char.{Char, code}
use pscheduler.Common.{
  String, ◌≡◌, refl, Bool, true, false, ◌&&◌, ◌==◌, str_eq, List, [], ◌∷◌, if◌then◌else◌,
}

-- The path that `urllib` finds in a URL, and whether `uuid.UUID` takes a text.
pub record Urls : Type 0 where
  pub path : String → String
  pub is_uuid : String → Bool

add_char : Char → List String → List String
add_char c [] = String.◌∷◌ c "" ∷ []
add_char c (part ∷ parts) = String.◌∷◌ c part ∷ parts

-- `path.split('/')`.
unfoldable pub split_path : String → List String
unfolding add_char
split_path String.[] = "" ∷ []
split_path (String.◌∷◌ c s) =
    let rest = split_path s in if code c == 47 then "" ∷ rest else add_char c rest

-- Whether the parts are those of a task.
unfoldable pub are_task : Urls → List String → Bool
are_task u (a ∷ b ∷ c ∷ task ∷ []) =
    str_eq a "" && str_eq b "pscheduler" && str_eq c "tasks" && u.is_uuid task
are_task u parts = false

-- Whether they are those of a run.
unfoldable pub are_run : Urls → List String → Bool
are_run u (a ∷ b ∷ c ∷ task ∷ runs ∷ run ∷ []) =
    str_eq a ""
    && str_eq b "pscheduler"
    && str_eq c "tasks"
    && str_eq runs "runs"
    && u.is_uuid task
    && u.is_uuid run
are_run u parts = false

unfoldable pub api_is_task : Urls → String → Bool
api_is_task u url = are_task u (split_path (u.path url))

unfoldable pub api_is_run : Urls → String → Bool
api_is_run u url = are_run u (split_path (u.path url))

are_run-are_task :
    (u : Urls) (parts : List String) → are_run u parts ≡ true → are_task u parts ≡ false
unfolding are_run are_task
are_run-are_task u (a ∷ b ∷ c ∷ task ∷ runs ∷ run ∷ []) h = refl
are_run-are_task u (a ∷ b ∷ c ∷ task ∷ []) h = absurd (cc)
are_run-are_task u [] h = refl
are_run-are_task u (a ∷ []) h = refl
are_run-are_task u (a ∷ b ∷ []) h = refl
are_run-are_task u (a ∷ b ∷ c ∷ []) h = refl
are_run-are_task u (a ∷ b ∷ c ∷ task ∷ runs ∷ []) h = refl
are_run-are_task u (a ∷ b ∷ c ∷ task ∷ runs ∷ run ∷ more ∷ parts) h = refl

-- No URL looks like that of a run and like that of a task.
api_is_run-api_is_task :
    (u : Urls) (url : String) → api_is_run u url ≡ true → api_is_task u url ≡ false
unfolding api_is_run api_is_task
api_is_run-api_is_task u url h = are_run-are_task u (split_path (u.path url)) h

split_test : split_path "/pscheduler/tasks" ≡ "" ∷ "pscheduler" ∷ "tasks" ∷ []
unfolding split_path
split_test = refl
