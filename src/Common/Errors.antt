-- ===== src/Common/Errors.antt =====
-- Exceptions as values. An exception carries the text that `str(ex)` gives.
use Prim.Native.String.{String}
use mathlib.Core.Path.{◌≡◌, refl, subst}
use mathlib.Core.Bool.{Bool, true, false}
use mathlib.Core.List.{[], ◌∷◌}
use mathlib.Core.Option.{Option, none, some}
use pscheduler.Common.Texts.{concat}

pub data Error : Type 0 where
  key_error value_error runtime_error assertion_error type_error index_error jq_error name_error
        url_error :
      String → Error

-- `str(ex)`: a KeyError shows the key in quotes.
unfoldable pub message : Error → String
message (key_error s) = concat ("'" ∷ s ∷ "'" ∷ [])
message (value_error s) = s
message (runtime_error s) = s
message (assertion_error s) = s
message (type_error s) = s
message (index_error s) = s
message (jq_error s) = s
message (name_error s) = s
message (url_error s) = s

pub data Result {ℓ} (A : Type ℓ) : Type ℓ where
  err : Error → Result A
  ok : A → Result A

-- `if not met: raise e`.
abbrev pub guard : Bool → Error → Result (Unit {0})
guard false e = err e
guard true e = ok tt

-- `raise e`, where the option is the value looked up.
abbrev pub or_raise {ℓ} : {A : Type ℓ} → Option A → Error → Result A
or_raise none e = err e
or_raise (some a) e = ok a

-- What follows a statement that may raise an exception.
infixl 5 ◌>>=◌
abbrev pub ◌>>=◌ {ℓ κ} : {A : Type ℓ} {B : Type κ} → Result A → (A → Result B) → Result B
err e >>= rest = err e
ok value >>= rest = rest value

-- Inversion of a successful bind.
pub >>=-eq-ok {ℓ κ} :
    {A : Type ℓ} {B : Type κ} (first : Result A) (rest : A → Result B) {b : B}
    → (first >>= rest) ≡ ok b
    → (a : A) × (first ≡ ok a) × (rest a ≡ ok b)
>>=-eq-ok (err e) rest h = cc
>>=-eq-ok (ok a) rest h = (a, refl, h)

infixl 5 ◌>>◌
abbrev pub ◌>>◌ {ℓ} : {B : Type ℓ} → Result (Unit {0}) → Result B → Result B
first >> second = first >>= λ done. second

-- The result, if there is one, satisfies the predicate.
abbrev pub Ensures {ℓ κ} : {A : Type ℓ} → (A → Type κ) → Result A → Type κ
Ensures P (err e) = Unit
Ensures P (ok a) = P a

-- The rule for a bind: what follows may use the value that came before.
pub Ensures-bind {ℓ κ λ'} :
    {A : Type ℓ} {B : Type κ} (P : B → Type λ') (first : Result A) (rest : A → Result B)
    → ((a : A) → first ≡ ok a → Ensures P (rest a))
    → Ensures P (first >>= rest)
Ensures-bind P (err e) rest h = tt
Ensures-bind P (ok a) rest h = h a refl

-- What it says of a result that was returned.
pub Ensures-ok {ℓ κ} :
    {A : Type ℓ} (P : A → Type κ) (r : Result A) {a : A} → Ensures P r → r ≡ ok a → P a
Ensures-ok P (err e) h k = cc
Ensures-ok P (ok b) h k = subst (Ensures P) k h
