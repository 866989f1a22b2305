-- ===== src/Api/Pings/AllUp.antt =====
-- When a list of hosts is up.
use pscheduler.Common.{
  String, ◌≡◌, ◌↔◌, ◌∙◌, sym, refl, Bool, true, false, List, [], ◌∷◌, All, some, Result, ok, ◌>>=◌,
  >>=-eq-ok, arith, eq_iff, str_eq, Bool-cases, inl, inr,
}
use mathlib.Core.Path.{subst}
use pscheduler.World.{World}
use pscheduler.PsUrl.{Transport}
use pscheduler.Api.{Hosts}
use pscheduler.Api.Pings.{
  Answer, api_ping, put_state, ping_into, api_ping_list, all_up, api_ping_all_up,
}

abbrev pub IsUp : World → Hosts → Transport → String → Type 0
IsUp w h t host = (reason : String) × (api_ping w h t (some host) ≡ ok (true, reason))

put_state_up :
    (host : String) (result : List (String × Bool))
    → all_up result ≡ true
    → all_up (put_state host true result) ≡ true
unfolding put_state
put_state_up host [] e = refl
put_state_up host ((k, true) ∷ result) e = ground (arith, put_state_up host result e)
put_state_up host ((k, false) ∷ result) e = absurd (cc)

ping_into_up :
    (w : World) (h : Hosts) (t : Transport) (result : List (String × Bool)) (hosts : List String)
    → all_up result ≡ true
    → All (IsUp w h t) hosts
    → (do results ← ping_into w h t result hosts; ok (all_up results)) ≡ ok true
unfolding ping_into
ping_into_up w h t result [] e up = rw e refl
ping_into_up w h t result (host ∷ hosts) e ((reason, first), rest) =
    rw first
      (ping_into_up w h t (put_state host true result) hosts (put_state_up host result e) rest)

-- The states of a dict are those that its hosts' pings give.
abbrev Agrees : World → Hosts → Transport → List (String × Bool) → Type 0
Agrees w h t result =
    All (λ (host, up). (reason : String) × (api_ping w h t (some host) ≡ ok (up, reason))) result

module _ (w : World) (h : Hosts) (t : Transport) where
  put_state-Agrees :
      (host : String) (up : Bool) (reason : String) (result : List (String × Bool))
      → api_ping w h t (some host) ≡ ok (up, reason)
      → Agrees w h t result
      → Agrees w h t (put_state host up result)
  unfolding put_state
  put_state-Agrees host up reason [] e a = ((reason, e), tt)
  put_state-Agrees host up reason ((k, v) ∷ result) e (first, a) =
      elim (Bool-cases (str_eq k host)) [
        | inl same ↦ let key : k ≡ host = (eq_iff k host).0 same in rw same ((reason, rw key e), a)
        | inr other ↦ rw other (first, put_state-Agrees host up reason result e a)
      ]

  -- If all are up after a state was put, it is up, and so were all before.
  put_state-all_up :
      (host : String) (up : Bool) (reason : String) (result : List (String × Bool))
      → api_ping w h t (some host) ≡ ok (up, reason)
      → Agrees w h t result
      → all_up (put_state host up result) ≡ true
      → (up ≡ true) × (all_up result ≡ true)
  unfolding put_state
  put_state-all_up host up reason [] e a h' = (ground (arith, h'), refl)
  put_state-all_up host up reason ((k, v) ∷ result) e ((old, first), a) h' =
      elim (Bool-cases (str_eq k host)) [
        | inl same ↦
            let key : k ≡ host = (eq_iff k host).0 same in
            let now : ◌≡◌ {A = Result Answer} (ok (v, old)) (ok (up, reason)) =
              sym first ∙ subst (λ x. api_ping w h t (some x) ≡ ok (up, reason)) (sym key) e in
            let states : v ≡ up = cc in
            let is_up : up ≡ true = ground (arith, same, h') in
            let others : all_up result ≡ true = ground (arith, same, h') in
            (is_up, ground (arith, states, is_up, others))
        | inr other ↦
            let this : v ≡ true = ground (arith, other, h') in
            let rest : all_up (put_state host up result) ≡ true = ground (arith, other, h') in
            let (is_up, others) = put_state-all_up host up reason result e a rest in
            (is_up, ground (arith, this, others))
      ]

  all_up-IsUp :
      (result : List (String × Bool)) (hosts : List String)
      → Agrees w h t result
      → (do results ← ping_into w h t result hosts; ok (all_up results)) ≡ ok true
      → (all_up result ≡ true) × All (IsUp w h t) hosts
  unfolding ping_into
  all_up-IsUp result [] a e = (ground (arith, e), tt)
  all_up-IsUp result (host ∷ hosts) a e =
      let (final, all_pings, at_last) = >>=-eq-ok (ping_into w h t result (host ∷ hosts)) _ e in
      let ((up, reason), first, later) = >>=-eq-ok (api_ping w h t (some host)) _ all_pings in
      let (states, others) =
        all_up-IsUp (put_state host up result) hosts
          (put_state-Agrees host up reason result first a) (rw later at_last) in
      let (is_up, before) = put_state-all_up host up reason result first a states in
      (
        before,
        ((reason, subst (λ u. api_ping w h t (some host) ≡ ok (u, reason)) is_up first), others),
      )

-- All hosts of a list are up, and no exception is raised, exactly if the ping of each host by itself
-- says that it is up.
pub api_ping_all_up-each :
    (w : World) (h : Hosts) (t : Transport) (hosts : List String)
    → (api_ping_all_up w h t hosts ≡ ok true) ↔ All (IsUp w h t) hosts
unfolding api_ping_all_up api_ping_list
api_ping_all_up-each w h t hosts =
    ((λ e. (all_up-IsUp w h t [] hosts tt e).1), ping_into_up w h t [] hosts refl)
