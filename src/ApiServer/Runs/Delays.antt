-- ===== src/ApiServer/Runs/Delays.antt =====
-- How long the handler of a run's merged result waits.
use pscheduler.Common.{ℕ, refl, String, Bool, true, false, if◌then◌else◌}
use pscheduler.World.{World}
use pscheduler.ApiServer.Script.{Reply, Script, sleep}
use pscheduler.ApiServer.Requests.{Request, Host, arg_boolean}
use pscheduler.ApiServer.Runs.Wait.{runs_first_run}
use pscheduler.ApiServer.Runs.Outcome.{
  Row, format_of, formatted, run_failed, shown, looked, poll, poll_result, found_first, result_get,
}
use pscheduler.ApiServer.Runs.Times.{Waits, try-Waits, choose-Waits, given-Waits}

module _ (w : World) (h : Host) (r : Request) (task : String) where
  shown-Waits : (n : ℕ) (format : String) (row : Row) → Waits n (shown w h r task format row)
  unfolding shown run_failed formatted
  shown-Waits n format row =
      choose-Waits n _ _ _ (λ e. tt)
        λ e. try-Waits n _ _ λ succeeded.
          choose-Waits n _ _ _
            (λ e'. choose-Waits n _ _ _ (λ t. tt) λ t. choose-Waits n _ _ _ (λ u. tt) (λ u. tt))
            λ e'. try-Waits n _ _ λ test_type reply.
              try-Waits n reply _ λ done. choose-Waits n _ _ _ (λ t. tt) (λ t. tt)

  -- A look that waits never sleeps, and one that does not wait sleeps if there is no result.
  waiting-Waits :
      (format : String) (again : Script) (reply : Reply)
      → Waits 0 (looked w h r task true format again reply)
  unfolding looked
  waiting-Waits format again reply = try-Waits 0 _ _ λ found.
      choose-Waits 0 _ _ _ (λ e. tt)
        λ e. try-Waits 0 _ _ λ row.
          choose-Waits 0 false (sleep 250 again) _ (λ e'. absurd (cc))
            (λ e'. shown-Waits 0 format row)

  looked-Waits :
      (format : String) (again : Script) (reply : Reply)
      → Waits 0 again
      → Waits 250 (looked w h r task false format again reply)
  unfolding looked
  looked-Waits format again reply k = try-Waits 250 _ _ λ found.
      choose-Waits 250 _ _ _ (λ e. tt)
        λ e. try-Waits 250 _ _ λ row.
          choose-Waits 250 _ (sleep 250 again) _ (λ e'. (0, refl, k))
            (λ e'. shown-Waits 250 format row)

  poll-Waits :
      (format run : String) (wait : Bool)
      → Waits (if wait then 0 else 250) (poll w h r task run wait format (if wait then 40 else 1))
  unfolding poll
  poll-Waits format run true = λ reply. waiting-Waits format _ reply
  poll-Waits format run false = λ reply. looked-Waits format _ reply tt

  found_first-Waits :
      (format run : String)
      → Waits (if arg_boolean r "wait" then 0 else 250) (found_first w h r task format run)
  unfolding found_first poll_result runs_first_run
  found_first-Waits format run =
      let n = if arg_boolean r "wait" then 0 else 250 in
      choose-Waits n _ _ _
        (λ e reply. try-Waits n _ _ λ found.
          given-Waits n found _ _ tt (λ first. poll-Waits format first (arg_boolean r "wait")))
        (λ e. poll-Waits format run (arg_boolean r "wait"))

  -- Whatever is answered, a GET of a run's merged result does not sleep at all if it is asked to wait
  -- for the result, and a quarter of a second at most if it is not.
  pub result_get-Waits :
      (run : String) → Waits (if arg_boolean r "wait" then 0 else 250) (result_get w h r task run)
  unfolding result_get
  result_get-Waits run =
      let n = if arg_boolean r "wait" then 0 else 250 in
      choose-Waits n _ _ _ (λ e. tt)
        λ e. choose-Waits n _ _ _ (λ e'. tt) (λ e'. found_first-Waits (format_of r) run)
