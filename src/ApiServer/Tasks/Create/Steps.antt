-- ===== src/ApiServer/Tasks/Create/Steps.antt =====
-- When a task is enabled.
use pscheduler.Common.{
  ℕ, suc, ◌≡◌, refl, ap, String, Bool, true, false, not, ◌==◌, List, [], ◌∷◌, ◌++◌, Result, ok, err,
  arith, if◌then◌else◌, some, Option-cases, inl, inr, concat,
}
use pscheduler.Json
use pscheduler.Json.{Json, Fields, obj, arr, num, pos, put, field, end}
use pscheduler.BatchProcessor.{array}
use pscheduler.World.{World}
use pscheduler.Proposal.{Hints}
use pscheduler.LimitProcessor.{Judgement}
use pscheduler.Api.{Hosts, api_url_hostport}
use pscheduler.ApiServer.Script.{
  Query, get, post, api_task_disable, api_task_enable, Script, Reply, rows, refused, failed,
  respond, raise, query, invoke, http, sleep, try, catch, choose,
}
use pscheduler.ApiServer.Script.Cases.{try_either, catch_either, choose_either}
use pscheduler.ApiServer.Requests.{Request, Host}
use pscheduler.ApiServer.Tasks.Create.{
  give_up, task_one, task_others, created, enable, others_of, strs, task_params, tasked, create,
  more_limits,
}

-- Nothing more is asked.
abbrev pub IsQuiet : Script → Type 0
IsQuiet (respond r) = Unit
IsQuiet (raise e) = Unit
IsQuiet s = ◌≡◌ {A = Bool} true false

-- A post: its URL, its parameters and its body.
abbrev pub Posting : Type 0
Posting = String × Json × Json

-- One more, if the answer is 200.
abbrev pub noted : {A : Type 0} → A → List A → Result (ℕ × Json) → List A
noted x log (err e) = log
noted x log (ok (status, v)) = if status == 200 then log ++ x ∷ [] else log

abbrev pub enables : Query → Bool
enables (api_task_enable task argument) = true
enables q = false

-- A task is enabled only when `Q` holds of its UUID, of the posts that were answered with 200 and of
-- the URLs whose fetches were; nothing follows the enabling, and nothing a disabling.
abbrev pub Enables :
    (Q : String → List Posting → List String → Type 0)
    → List Posting
    → List String
    → Script
    → Type 0
Enables Q p f (respond r) = Unit
Enables Q p f (raise e) = Unit
Enables Q p f (query (api_task_enable uuid argument) rest) =
    Q uuid p f × ((r : Reply) → IsQuiet (rest r))
Enables Q p f (query (api_task_disable uuid argument) rest) = (r : Reply) → IsQuiet (rest r)
Enables Q p f (query q rest) = (r : Reply) → Enables Q p f (rest r)
Enables Q p f (invoke c rest) = (r : _) → Enables Q p f (rest r)
Enables Q p f (http (get url params) rest) =
    (r : Result (ℕ × Json)) → Enables Q p (noted url f r) (rest r)
Enables Q p f (http (post url params body) rest) =
    (r : Result (ℕ × Json)) → Enables Q (noted (url, params, body) p r) f (rest r)
Enables Q p f (sleep n rest) = Enables Q p f rest

-- The URL of a task at a participant.
abbrev pub IsUrl : Hosts → (uuid : String) → (name url : String) → Type 0
IsUrl hosts uuid name url =
    api_url_hostport hosts (some name) (concat ("tasks/" ∷ uuid ∷ [])) ≡ ok url

-- Parameters that say the number of a participant.
abbrev pub Numbers : ℕ → Json → Type 0
Numbers n params = (m : Fields) × (params ≡ obj m) × (Json.get "participant" m ≡ some (num (pos n)))

-- One post to each participant, in their order, with its number from the first's on and the body.
abbrev pub ArePosted :
    Hosts → (uuid : String) → (body : Json) → (n : ℕ) → List String → List Posting → Type 0
ArePosted hosts uuid body n [] [] = Unit
ArePosted hosts uuid body n (name ∷ names) ((url, params, sent) ∷ posts) =
    (IsUrl hosts uuid name url × Numbers n params × (sent ≡ body))
    × ArePosted hosts uuid body (suc n) names posts
ArePosted hosts uuid body n names posts = ◌≡◌ {A = Bool} true false

-- One fetch from each participant, in their order.
abbrev pub AreFetched : Hosts → (uuid : String) → List String → List String → Type 0
AreFetched hosts uuid [] [] = Unit
AreFetched hosts uuid (name ∷ names) (url ∷ urls) =
    IsUrl hosts uuid name url × AreFetched hosts uuid names urls
AreFetched hosts uuid names urls = ◌≡◌ {A = Bool} true false

-- All participants but the first have taken the task, with the list of participants in it.
abbrev pub AreTasked :
    Hosts → List String → Fields → (uuid : String) → List Posting → List String → Type 0
AreTasked hosts participants task uuid posts urls =
    ArePosted hosts uuid (obj (put "participants" (arr (array (strs participants))) task)) 1
      (others_of participants) posts
    × AreFetched hosts uuid (others_of participants) urls

module _ (Q : String → List Posting → List String → Type 0) where
  try-Enables :
      {A : Type 0} (p : List Posting) (f : List String) (r : Result A) (rest : A → Script)
      → ((a : A) → r ≡ ok a → Enables Q p f (rest a))
      → Enables Q p f (try r rest)
  try-Enables p f = try_either (Enables Q p f) (λ e. tt)

  choose-Enables :
      (p : List Posting) (f : List String) (b : Bool) (s t : Script)
      → (b ≡ true → Enables Q p f s)
      → (b ≡ false → Enables Q p f t)
      → Enables Q p f (choose b s t)
  choose-Enables p f = choose_either (Enables Q p f)

catch-IsQuiet :
    {A : Type 0} (r : Result A) (handler : String → Script) (rest : A → Script)
    → ((text : String) → IsQuiet (handler text))
    → ((a : A) → IsQuiet (rest a))
    → IsQuiet (catch r handler rest)
catch-IsQuiet r handler rest h k = catch_either IsQuiet r handler rest h (λ a e. k a)

choose-IsQuiet : (b : Bool) (s t : Script) → IsQuiet s → IsQuiet t → IsQuiet (choose b s t)
choose-IsQuiet b s t h k = choose_either IsQuiet b s t (λ e. h) (λ e. k)

created-IsQuiet : (w : World) (r : Request) (uuid : String) → IsQuiet (created w r uuid)
unfolding created
created-IsQuiet w r uuid = choose-IsQuiet _ _ _ tt tt

noted-ok :
    {A : Type 0} (x : A) (log : List A) (r : Result (ℕ × Json)) (a : ℕ × Json)
    → r ≡ ok a
    → not (a.0 == 200) ≡ false
    → noted x log r ≡ log ++ x ∷ []
noted-ok x log r (status, v) e h =
    let good : (status == 200) ≡ true = ground (arith, h) in rw (e, good) refl

append-nil : {A : Type 0} (xs : List A) → xs ≡ xs ++ []
append-nil [] = refl
append-nil (x ∷ xs) = ap (λ zs. x ∷ zs) (append-nil xs)

append-middle :
    {A : Type 0} (xs : List A) (y : A) (ys : List A) → (xs ++ y ∷ []) ++ ys ≡ xs ++ y ∷ ys
append-middle [] y ys = refl
append-middle (x ∷ xs) y ys = ap (λ zs. x ∷ zs) (append-middle xs y ys)

task_params-Numbers : (task : Fields) (n : ℕ) → Numbers n (task_params task n)
unfolding task_params
task_params-Numbers task n = elim (Option-cases (Json.get "_key" task)) [
  | inl e ↦ (field "participant" (num (pos n)) end, ground (arith, e), refl)
  | inr (key, e) ↦
      (field "key" key (field "participant" (num (pos n)) end), ground (arith, e), refl)
]

module _ (Q : String → List Posting → List String → Type 0) (w : World) (h : Host) (hosts : Hosts)
    (r : Request) (uuid : String) (task : Fields) where
  -- A participant that takes the task is noted for the post and for the fetch.
  task_one-Enables :
      (p : List Posting) (f : List String) (n : ℕ) (part_name : String) (limits : List Json)
      (rest : List Json → Script)
      → ((url : String)
          → IsUrl hosts uuid part_name url
          → (more : List Json)
          → Enables Q (p ++ (url, task_params task n, obj task) ∷ []) (f ++ url ∷ []) (rest more))
      → Enables Q p f (task_one w h hosts r uuid task n part_name limits rest)
  unfolding task_one give_up
  task_one-Enables p f n part_name limits rest k = try-Enables Q p f _ _ λ url e reply.
      let sent : Posting = (url, task_params task n, obj task) in
      try-Enables Q (noted sent p reply) f reply _ λ posted came.
        choose-Enables Q (noted sent p reply) f _ _ _ (λ bad answer. tt)
          λ good answer.
            try-Enables Q (noted sent p reply) (noted url f answer) answer _ λ details here.
              choose-Enables Q (noted sent p reply) (noted url f answer) _ _ _ (λ bad done. tt)
                λ fine.
                  try-Enables Q (noted sent p reply) (noted url f answer)
                    (more_limits details.1 limits) rest
                    λ more e'.
                      rw
                        (
                          noted-ok sent p reply posted came good,
                          noted-ok url f answer details here fine,
                        )
                        (k url e more)

  task_others-Enables :
      (p : List Posting) (f : List String) (n : ℕ) (others : List String) (limits : List Json)
      (rest : List Json → Script)
      → ((posts : List Posting) (urls : List String)
          → ArePosted hosts uuid (obj task) n others posts
          → AreFetched hosts uuid others urls
          → (more : List Json) → Enables Q (p ++ posts) (f ++ urls) (rest more))
      → Enables Q p f (task_others w h hosts r uuid task n others limits rest)
  unfolding task_others
  task_others-Enables p f n [] limits rest k =
      rw (append-nil p, append-nil f) (k [] [] tt tt limits)
  task_others-Enables p f n (name ∷ others) limits rest k =
      task_one-Enables p f n name limits _ λ url here more.
        let sent : Posting = (url, task_params task n, obj task) in
        task_others-Enables (p ++ sent ∷ []) (f ++ url ∷ []) (suc n) others more rest
          λ posts urls posted got last.
            rw (append-middle p sent posts, append-middle f url urls)
              (k (sent ∷ posts) (url ∷ urls) ((here, task_params-Numbers task n, refl), posted)
                (here, got) last)

enable-Enables :
    (Q : String → List Posting → List String → Type 0) (p : List Posting) (f : List String)
    (w : World) (r : Request) (uuid : String) (limits : List Json)
    → Q uuid p f
    → Enables Q p f (enable w r uuid limits)
unfolding enable
enable-Enables Q p f w r uuid limits q stored =
    try-Enables Q p f _ _
      λ done e. (q, λ enabled. catch-IsQuiet _ _ _ (λ text. tt) λ x. created-IsQuiet w r uuid)

tasked-Enables :
    (w : World) (h : Host) (hosts : Hosts) (r : Request) (limits : List Json)
    (participants : List String) (task : Fields) (reply : Reply)
    → Enables
        (AreTasked hosts participants task)
        []
        []
        (tasked w h hosts r limits participants task reply)
unfolding tasked
tasked-Enables w h hosts r limits participants task (refused text) = tt
tasked-Enables w h hosts r limits participants task (failed e) = tt
tasked-Enables w h hosts r limits participants task (rows n found) =
    let Q = AreTasked hosts participants task in
    try-Enables Q [] [] _ _ λ uuid e.
      task_others-Enables Q w h hosts r uuid _ [] [] 1 (others_of participants) limits _
        λ posts urls posted got more. enable-Enables Q posts urls w r uuid more (posted, got)

-- Whatever the database and the other servers answer, a task is enabled only when each participant
-- but the first has taken it: in the participants' order, a post to the URL of the task's UUID at that
-- participant, with the participant's number and with the list of participants in the task, and a
-- fetch from that URL were both answered with 200, and no other post or fetch was. Once the task is
-- enabled or disabled, nothing follows but the response.
pub create-Enables :
    (w : World) (h : Host) (hosts : Hosts) (r : Request) (hints : Hints) (j : Judgement)
    (participants : List String) (task : Fields)
    → Enables
        (AreTasked hosts participants task)
        []
        []
        (create w h hosts r hints j participants task)
unfolding create
create-Enables w h hosts r hints j participants task reply =
    tasked-Enables w h hosts r _ participants task reply
