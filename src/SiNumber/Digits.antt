-- ===== src/SiNumber/Digits.antt =====
-- The digits of a number, read back.
use Prim.Native.Char.{Char, char, code}
use Prim.Native.String
use text.Mathlib.TextLemmas.{append-nil, nil-append, cons-append}
use mathlib.Core.Path.{subst}
use pscheduler.Common.{
  ℕ, zero, suc, ◌+◌, ◌-◌, ◌*◌, ◌/◌, ◌%◌, ◌<◌, ◌≤◌, String, ◌≡◌, ◌∙◌, refl, sym, ap, ltb, Bool-cases,
  inl, inr, arith, ltb→lt, digit, decimal_digits, decimal,
}
use pscheduler.StringMatcher.{lower, lower_char}
use pscheduler.SiNumber.{digits, int_from}

-- Only digits.
abbrev pub AreDigits : String → Type 0
AreDigits String.[] = Unit
AreDigits (String.◌∷◌ c s) = (48 ≤ code c) × (code c ≤ 57) × AreDigits s

-- The text of one digit.
abbrev IsDigit : ℕ → String → Type 0
IsDigit d s =
    AreDigits s
    × ((n : ℕ) → int_from n s ≡ 10 * n + d)
    × ((c : Char) × (t : String) × (s ≡ String.◌∷◌ c t))

one-IsDigit : (c : Char) (d : ℕ) → code c ≡ 48 + d → d < 10 → IsDigit d (String.◌∷◌ c String.[])
unfolding int_from
one-IsDigit c d e h = ((omega arith, omega arith, tt), (λ n. omega arith), (c, String.[], refl))

digit-IsDigit : (d : ℕ) → d < 10 → IsDigit d (digit d)
unfolding digit
digit-IsDigit zero h = one-IsDigit (char 48 tt) 0 refl h
digit-IsDigit (suc zero) h = one-IsDigit (char 49 tt) 1 refl h
digit-IsDigit (suc (suc zero)) h = one-IsDigit (char 50 tt) 2 refl h
digit-IsDigit (suc (suc (suc zero))) h = one-IsDigit (char 51 tt) 3 refl h
digit-IsDigit (suc (suc (suc (suc zero)))) h = one-IsDigit (char 52 tt) 4 refl h
digit-IsDigit (suc (suc (suc (suc (suc zero))))) h = one-IsDigit (char 53 tt) 5 refl h
digit-IsDigit (suc (suc (suc (suc (suc (suc zero)))))) h = one-IsDigit (char 54 tt) 6 refl h
digit-IsDigit (suc (suc (suc (suc (suc (suc (suc zero))))))) h = one-IsDigit (char 55 tt) 7 refl h
digit-IsDigit (suc (suc (suc (suc (suc (suc (suc (suc zero)))))))) h =
    one-IsDigit (char 56 tt) 8 refl h
digit-IsDigit (suc (suc (suc (suc (suc (suc (suc (suc (suc zero))))))))) h =
    one-IsDigit (char 57 tt) 9 refl h
digit-IsDigit (suc (suc (suc (suc (suc (suc (suc (suc (suc (suc n)))))))))) h = absurd (omega arith)

append-AreDigits : (s t : String) → AreDigits s → AreDigits t → AreDigits (String.◌++◌ s t)
append-AreDigits String.[] t h k = rw (nil-append t) k
append-AreDigits (String.◌∷◌ c s) t (a, b, h) k =
    rw (cons-append c s t) (a, b, append-AreDigits s t h k)

int_from-append : (n : ℕ) (s t : String) → int_from n (String.◌++◌ s t) ≡ int_from (int_from n s) t
unfolding int_from
int_from-append n String.[] t = rw (nil-append t) refl
int_from-append n (String.◌∷◌ c s) t =
    rw (cons-append c s t) (int_from-append (10 * n + (code c - 48)) s t)

pub one-append : (c : Char) (s : String) → String.◌++◌ (String.◌∷◌ c String.[]) s ≡ String.◌∷◌ c s
one-append c s = cons-append c String.[] s ∙ ap (String.◌∷◌ c) (nil-append s)

lower_char-digit : (c : Char) → code c ≤ 57 → lower_char c ≡ String.◌∷◌ c String.[]
unfolding lower_char
lower_char-digit c h = ground arith

pub lower-cons :
    (c : Char) (s : String) → code c ≤ 57 → lower (String.◌∷◌ c s) ≡ String.◌∷◌ c (lower s)
unfolding lower
lower-cons c s h = rw (lower_char-digit c h, append-nil (lower s)) (one-append c (lower s))

pub lower-digits : (s t : String) → AreDigits s → lower (String.◌++◌ s t) ≡ String.◌++◌ s (lower t)
unfolding lower lower_char
lower-digits String.[] t h = rw (nil-append t, nil-append (lower t)) refl
lower-digits (String.◌∷◌ c s) t (a, b, h) =
    rw (cons-append c s t, cons-append c s (lower t), sym (lower-digits s t h))
      (lower-cons c (String.◌++◌ s t) b)

pub digits-append :
    (s t : String) → AreDigits s → digits t ≡ (String.[], t) → digits (String.◌++◌ s t) ≡ (s, t)
unfolding digits
digits-append String.[] t h e = rw (nil-append t) e
digits-append (String.◌∷◌ c s) t (a, b, h) e =
    rw (cons-append c s t, digits-append s t h e) (ground arith)

-- The text of a number.
abbrev pub IsDecimal : ℕ → String → Type 0
IsDecimal n s =
    AreDigits s × (int_from 0 s ≡ n) × ((c : Char) × (t : String) × (s ≡ String.◌∷◌ c t))

append-IsDecimal :
    (m d : ℕ) (s t : String)
    → IsDecimal m s
    → IsDigit d t
    → IsDecimal (10 * m + d) (String.◌++◌ s t)
append-IsDecimal m d s t (a, v, (c, s', e)) (b, w, _) = (
  append-AreDigits s t a b,
  int_from-append 0 s t ∙ rw v (w m),
  (c, String.◌++◌ s' t, rw e (cons-append c s' t)),
)

decimal_digits-IsDecimal : (fuel n : ℕ) → n < fuel → IsDecimal n (decimal_digits fuel n)
unfolding decimal_digits
decimal_digits-IsDecimal zero n h = absurd (omega arith)
decimal_digits-IsDecimal (suc fuel) n h = elim (Bool-cases (ltb n 10)) [
  | inl e ↦ let (a, v, c) = digit-IsDigit n (ltb→lt n 10 e) in rw e (a, v 0 ∙ (omega arith), c)
  | inr e ↦
      let whole_tens : 10 * (n / 10) + n % 10 ≡ n = omega arith in
      let least : 10 ≤ n = ground arith in
      rw e (
        subst (λ k. IsDecimal k (String.◌++◌ (decimal_digits fuel (n / 10)) (digit (n % 10))))
          whole_tens
          (append-IsDecimal (n / 10) (n % 10) _ _
            (decimal_digits-IsDecimal fuel (n / 10) (omega arith))
            (digit-IsDigit (n % 10) (omega arith))))
]

pub decimal-IsDecimal : (n : ℕ) → IsDecimal n (decimal n)
unfolding decimal
decimal-IsDecimal n = decimal_digits-IsDecimal (n + 1) n (omega arith)
