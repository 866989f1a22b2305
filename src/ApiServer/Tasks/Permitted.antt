-- ===== src/ApiServer/Tasks/Permitted.antt =====
-- What a posted task needs before anything is written.
use pscheduler.Common.{
  ◌≡◌, refl, String, true, false, not, Option, none, some, List, [], ◌∷◌, ok, arith,
}
use pscheduler.Json.{Json, get}
use pscheduler.World.{World}
use pscheduler.PsJson.{json_load_schema}
use pscheduler.Proposal.{Hints}
use pscheduler.LimitProcessor.{Processor, process, Judgement}
use pscheduler.Api.{Hosts}
use pscheduler.ApiServer.Script.{Script}
use pscheduler.ApiServer.Script.Needs.{
  Needs, anything, try-Needs, catch-Needs, catch_value-Needs, given-Needs, choose-Needs,
}
use pscheduler.ApiServer.Requests.{Request, Host, request_hints, proxied, split_fields}
use pscheduler.ApiServer.Tasks.Validate.{
  Texts, validate_spec, validate_schedule, validate_archives, validate_each, validate_transform,
  validate_lead_bind, spec_texts, rewritten_texts,
}
use pscheduler.ApiServer.Tasks.{place, judged, limited, tasks_post}

module _ (P : Type 0) (w : World) where
  pub validate_spec-Needs :
      (texts : Texts) (task : Json) (rest : Script)
      → Needs P rest
      → Needs P (validate_spec w texts task rest)
  unfolding validate_spec
  validate_spec-Needs texts task rest h =
      catch-Needs P _ _ _ (λ text. tt)
        λ test reply.
          catch-Needs P reply _ _ (λ text. tt)
            λ done.
              choose-Needs P _ _ _ (λ e. tt)
                λ e.
                  catch-Needs P _ _ _ (λ text. tt)
                    λ answer. given-Needs P answer rest _ (λ e'. h) (λ text e'. tt)

  validate_schedule-Needs :
      (host : Host) (task : Json) (rest : Script)
      → Needs P rest
      → Needs P (validate_schedule host task rest)
  unfolding validate_schedule
  validate_schedule-Needs host task rest h =
      try-Needs P _ _ λ cron e.
        given-Needs P cron rest _ (λ e'. h) λ s e'. choose-Needs P _ _ _ (λ y. h) (λ n. tt)

  validate_transform-Needs :
      (archive : Json) (rest : Script) → Needs P rest → Needs P (validate_transform w archive rest)
  unfolding validate_transform
  validate_transform-Needs archive rest h = try-Needs P _ _ λ m e.
      given-Needs P (get "transform" m) rest _ (λ e'. h)
        λ t e'. catch_value-Needs P _ _ _ (λ text. tt) (λ filter loaded. h)

  validate_each-Needs :
      (archives : List Json) (rest : Script)
      → Needs P rest
      → Needs P (validate_each w archives rest)
  unfolding validate_each
  validate_each-Needs [] rest h = h
  validate_each-Needs (archive ∷ archives) rest h =
      catch-Needs P _ _ _ (λ text. tt)
        λ archiver reply.
          catch-Needs P reply _ _ (λ text. tt)
            λ done.
              choose-Needs P _ _ _ (λ e. tt)
                λ e.
                  catch-Needs P _ _ _ (λ text. tt)
                    λ answer.
                      given-Needs P answer _ _
                        (λ e'.
                          validate_transform-Needs archive _ (validate_each-Needs archives rest h))
                        (λ text e'. tt)

  validate_archives-Needs :
      (task : Json) (rest : Script) → Needs P rest → Needs P (validate_archives w task rest)
  unfolding validate_archives
  validate_archives-Needs task rest h =
      try-Needs P _ _ λ archives e. validate_each-Needs archives rest h

  validate_lead_bind-Needs :
      (host : Host) (task : Json) (rest : Script)
      → Needs P rest
      → Needs P (validate_lead_bind w host task rest)
  unfolding validate_lead_bind
  validate_lead_bind-Needs host task rest h =
      try-Needs P _ _ λ bind e.
        given-Needs P bind rest _ (λ e'. h) λ s e'. choose-Needs P _ _ _ (λ y. h) (λ n. tt)

  proxied-Needs :
      (host : Host) (r : Request) (rest : Hints → Script) (parts : List String)
      → ((hints : Hints) → Needs P (rest hints))
      → Needs P (proxied host r parts rest)
  unfolding proxied
  proxied-Needs host r rest [] h = tt
  proxied-Needs host r rest (a ∷ []) h = tt
  proxied-Needs host r rest (a ∷ b ∷ []) h = tt
  proxied-Needs host r rest (ip ∷ name ∷ key ∷ []) h =
      choose-Needs P _ _ _ (λ y. tt)
        λ n. (tt, λ reply. try-Needs P _ _ λ valid e. choose-Needs P _ _ _ (λ v. tt) (λ v. h _))
  proxied-Needs host r rest (a ∷ b ∷ c ∷ d ∷ parts) h = tt

  pub request_hints-Needs :
      (host : Host) (r : Request) (rest : Hints → Script)
      → ((hints : Hints) → Needs P (rest hints))
      → Needs P (request_hints host r rest)
  unfolding request_hints
  request_hints-Needs host r rest h =
      given-Needs P r.requester _ _ (λ e. h _)
        λ header e. proxied-Needs host r rest (split_fields header) h

-- The processor has let pass the task that a text says.
abbrev pub HasPassed : World → Option Processor → String → Type 0
HasPassed w processor text =
    (p : Processor) × (processor ≡ some p)
    × ((task : Json) × (json_load_schema w (some 3) text ≡ ok task)
        × (hints : Hints) × (j : Judgement) × (process w p
              (record { task = task; hints = some hints }) true false
            ≡ ok j)
        × (j.passed ≡ true))

module _ (w : World) (host : Host) (hosts : Hosts) (r : Request) where
  judged-Needs :
      (P : Type 0) (hints : Hints) (task : Json) (j : Judgement)
      → (j.passed ≡ true → P)
      → Needs P (judged w host hosts r hints task j)
  unfolding judged
  judged-Needs P hints task j h =
      choose-Needs P (not j.passed) _ _ (λ e. tt)
        λ e.
          let p = h (ground (arith, e)) in
          given-Needs P j.task _ _ (λ e'. anything P p (place w host hosts r hints j task))
            λ new e'.
              validate_spec-Needs P w rewritten_texts new _
                (anything P p (place w host hosts r hints j new))

  limited-Needs :
      (processor : Option Processor) (task : Json)
      → json_load_schema w (some 3) r.data' ≡ ok task
      → Needs (HasPassed w processor r.data') (limited w host hosts r processor task)
  unfolding limited
  limited-Needs none task loaded = tt
  limited-Needs (some p) task loaded =
      let P = HasPassed w (some p) r.data' in
      request_hints-Needs P w host r _ λ hints. try-Needs P _ _ λ j e.
        judged-Needs P hints task j (λ passed. (p, refl, (task, loaded, hints, j, e, passed)))

  -- While a task is posted, nothing is written to the database and nothing posted to another server,
  -- whatever the plug-ins, the database and the other servers answer, unless the limit processor has
  -- let the posted task pass for some hints.
  pub tasks_post-HasPassed :
      (processor : Option Processor)
      → Needs (HasPassed w processor r.data') (tasks_post w host hosts r processor)
  unfolding tasks_post
  tasks_post-HasPassed processor =
      let P = HasPassed w processor r.data' in
      catch_value-Needs P _ _ _ (λ text. tt)
        λ task loaded.
          given-Needs P (w.json_validate "TaskSpecification" task) _ _
            (λ e. validate_spec-Needs P w spec_texts task _ (
              validate_schedule-Needs P w host task _ (
                validate_archives-Needs P w task _ (
                  validate_lead_bind-Needs P w host task _ (limited-Needs processor task loaded)))))
            (λ text e. tt)
