-- ===== src/PsUrl/Statuses.antt =====
-- The statuses of a call that returns.
use pscheduler.Common.{
  ℕ, ◌≤◌, String, ◌≡◌, Bool, true, false, ◌||◌, ltb, ◌==◌, ok, arith, Bool-cases, inl, inr,
  >>=-eq-ok, if◌then◌else◌,
}
use pscheduler.Json.{Json}
use pscheduler.World.{World}
use pscheduler.PsJson.{json_load}
use pscheduler.PsUrl.{
  Dict, Performed, answered, broken, Transport, Transfer, read_body, concluded, finished, runner,
  url_get,
}

read_body-status :
    (w : World) (json : Bool) (status status' : ℕ) (text : String) (v : Json)
    → read_body w json status text ≡ ok (status', v)
    → status ≡ status'
unfolding read_body
read_body-status w true status status' text v h =
    let (x, e, rest) = >>=-eq-ok (json_load w text) _ h in cc
read_body-status w false status status' text v h = cc

concluded-success :
    (w : World) (json : Bool) (status status' : ℕ) (text : String) (v : Json)
    → concluded w json true status text ≡ ok (status', v)
    → (200 ≤ status') × (status' ≤ 299)
unfolding concluded
concluded-success w json status status' text v h =
    elim (Bool-cases (ltb status 200 || ltb 299 status)) [
      | inl e ↦ absurd (ground (arith, e, h))
      | inr e ↦
          let read : read_body w json status text ≡ ok (status', v) = ground (arith, e, h) in
          ground (arith, e, read_body-status w json status status' text v read)
    ]

performed-success :
    (w : World) (p : Performed) (json : Bool) (status : ℕ) (v : Json)
    → finished w p json true ≡ ok (status, v)
    → (200 ≤ status) × (status ≤ 299)
unfolding finished
performed-success w (answered n text) json status v h =
    concluded-success w json (if n == 0 then 200 else n) status text v h
performed-success w (broken message) json status v h =
    concluded-success w json 400 status message v h

runner-success :
    (w : World) (t : Transport) (transfer : Transfer) (json : Bool) (status : ℕ) (v : Json)
    → runner w t transfer json true ≡ ok (status, v)
    → (200 ≤ status) × (status ≤ 299)
unfolding runner
runner-success w t transfer json status v h = performed-success w (t transfer) json status v h

-- A GET that is to raise exceptions returns only for a status of success, from 200 to 299, whatever
-- the transfer comes to.
url_get-success :
    (w : World) (t : Transport) (url : String) (params : Json) (headers : Dict) (json : Bool)
    (status : ℕ) (v : Json)
    → url_get w t url params headers json true ≡ ok (status, v)
    → (200 ≤ status) × (status ≤ 299)
unfolding url_get
url_get-success w t url params headers json status v h = runner-success w t _ json status v h
