-- ===== src/SiNumber/Decimals.antt =====
-- Numbers that are written with their digits and read back.
use Prim.Native.Char.{Char, char}
use Prim.Native.String
use text.Mathlib.TextLemmas.{append-nil, nil-append, cons-append}
use text.Mathlib.TextEquality.{eq_iff}
use mathlib.Core.Path.{subst}
use pscheduler.Common.{
  ℕ, ◌*◌, String, ◌≡◌, refl, sym, ap, Bool, true, false, Bool-cases, inl, inr, arith, some, List,
  [], ◌∷◌, All, ok, concat, str_eq, lookup, decimal,
}
use pscheduler.Json.{str, pos, ℤ}
use pscheduler.StringMatcher.{lower}
use pscheduler.CidrListUrl.Lines.{lstrip, is_space}
use pscheduler.SiNumber.{
  Number, whole, si_multipliers, digits, chomp, multiplier_of, negative, product, sign_text,
  whole_number, after_digits, unsigned, search, si_as_number,
}
use pscheduler.SiNumber.Digits.{
  AreDigits, lower-digits, digits-append, one-append, decimal-IsDecimal, lower-cons,
}

abbrev signed : Bool → ℕ → ℤ
signed false n = pos n
signed true n = negative n

-- What the expression makes of a unit after digits.
abbrev IsUnit : String → ℕ → Type 0
IsUnit unit m =
    (digits unit ≡ (String.[], unit))
    × ((sign : Bool) (ds : String) → after_digits sign ds unit ≡ some (whole (product sign ds m)))

units-AreUnits : All (λ (unit, m). IsUnit unit m) si_multipliers
unfolding digits after_digits whole_number multiplier_of chomp lstrip is_space
units-AreUnits = (
  (refl, λ sign ds. refl),
  (
    (refl, λ sign ds. refl),
    (
      (refl, λ sign ds. refl),
      (
        (refl, λ sign ds. refl),
        (
          (refl, λ sign ds. refl),
          (
            (refl, λ sign ds. refl),
            (
              (refl, λ sign ds. refl),
              (
                (refl, λ sign ds. refl),
                (
                  (refl, λ sign ds. refl),
                  (
                    (refl, λ sign ds. refl),
                    (
                      (refl, λ sign ds. refl),
                      (
                        (refl, λ sign ds. refl),
                        (
                          (refl, λ sign ds. refl),
                          (
                            (refl, λ sign ds. refl),
                            (
                              (refl, λ sign ds. refl),
                              ((refl, λ sign ds. refl), ((refl, λ sign ds. refl), tt)),
                            ),
                          ),
                        ),
                      ),
                    ),
                  ),
                ),
              ),
            ),
          ),
        ),
      ),
    ),
  ),
)

lookup-All :
    (P : String → ℕ → Type 0) (k : String) (v : ℕ) (m : List (String × ℕ))
    → All (λ (j, w). P j w) m
    → lookup k m ≡ some v
    → P k v
lookup-All P k v [] h e = absurd (cc)
lookup-All P k v ((j, w) ∷ m) (p, h) e = elim (Bool-cases (str_eq j k)) [
  | inl same ↦
      let key : j ≡ k = ground (arith, eq_iff j k) in
      let value : w ≡ v = ground (arith, e) in subst (P k) value (subst (λ i. P i w) key p)
  | inr other ↦ lookup-All P k v m h (ground (arith, e, other))
]

product-decimal : (sign : Bool) (n m : ℕ) → product sign (decimal n) m ≡ signed sign (n * m)
unfolding product
product-decimal false n m = let (a, v, c) = decimal-IsDecimal n in rw v refl
product-decimal true n m = let (a, v, c) = decimal-IsDecimal n in rw v refl

cons-nonempty : (c : Char) (s : String) → str_eq (String.◌∷◌ c s) "" ≡ false
cons-nonempty c s = elim (Bool-cases (str_eq (String.◌∷◌ c s) "")) [
  | inl e ↦ let same : String.◌∷◌ c s ≡ "" = (eq_iff (String.◌∷◌ c s) "").0 e in absurd (cc)
  | inr e ↦ e
]

unsigned-decimal :
    (sign : Bool) (n m : ℕ) (unit : String)
    → IsUnit unit m
    → unsigned sign (String.◌++◌ (decimal n) unit) ≡ some (whole (signed sign (n * m)))
unfolding unsigned
unsigned-decimal sign n m unit (stops, follows) =
    let (a, v, (c, s, e)) = decimal-IsDecimal n in
    let nonempty : str_eq (decimal n) "" ≡ false = rw e (cons-nonempty c s) in
    rw (digits-append (decimal n) unit a stops, nonempty, follows sign (decimal n))
      (ap (λ k. some (whole k)) (product-decimal sign n m))

search-decimal :
    (sign : Bool) (n : ℕ) (rest : String)
    → search (String.◌++◌ (sign_text sign) (String.◌++◌ (decimal n) rest))
      ≡ unsigned sign (String.◌++◌ (decimal n) rest)
unfolding search
search-decimal true n rest = rw (one-append (char 45 tt) (String.◌++◌ (decimal n) rest)) refl
search-decimal false n rest =
    let (a, v, (c, s, e)) = decimal-IsDecimal n in
    let (least, most, _) : AreDigits (String.◌∷◌ c s) = subst AreDigits e a in
    rw (nil-append (String.◌++◌ (decimal n) rest), e, cons-append c s rest) (ground arith)

lower-sign :
    (sign : Bool) (n : ℕ) (rest : String)
    → lower (String.◌++◌ (sign_text sign) (String.◌++◌ (decimal n) rest))
      ≡ String.◌++◌ (sign_text sign) (String.◌++◌ (decimal n) (lower rest))
lower-sign true n rest =
    let (a, v, c) = decimal-IsDecimal n in
    rw
      (
        one-append (char 45 tt) (String.◌++◌ (decimal n) rest),
        one-append (char 45 tt) (String.◌++◌ (decimal n) (lower rest)),
        sym (lower-digits (decimal n) rest a),
      )
      (lower-cons (char 45 tt) (String.◌++◌ (decimal n) rest) (omega arith))
lower-sign false n rest =
    let (a, v, c) = decimal-IsDecimal n in
    rw
      (nil-append (String.◌++◌ (decimal n) rest), nil-append (String.◌++◌ (decimal n) (lower rest)))
      (lower-digits (decimal n) rest a)

found : (text : String) (n : Number) → search (lower text) ≡ some n → si_as_number (str text) ≡ ok n
unfolding si_as_number
found text n h = rw (si_as_number, h) refl

-- A number with a sign and a unit, in letters of either case, is read back as the number times the
-- unit's multiplier.
pub si_as_number-decimal :
    (sign : Bool) (n m : ℕ) (unit : String)
    → lookup (lower unit) si_multipliers ≡ some m
    → si_as_number (str (concat (sign_text sign ∷ decimal n ∷ unit ∷ [])))
      ≡ ok (whole (signed sign (n * m)))
si_as_number-decimal sign n m unit h =
    let unit_lower = lookup-All IsUnit (lower unit) m si_multipliers units-AreUnits h in
    found _ _ (
      rw (append-nil unit, lower-sign sign n unit, search-decimal sign n (lower unit))
        (unsigned-decimal sign n m (lower unit) unit_lower))
