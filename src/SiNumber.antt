-- ===== src/SiNumber.antt =====
-- python-pscheduler/pscheduler/pscheduler/sinumber.py, but for `number_as_si`. The regular expression
-- is read from left to right, which is the only way in which it matches; white space is that of ASCII.
pub mod Decimals
pub mod Digits
use Prim.Native.Char.{Char, code}
use Prim.Native.String
use pscheduler.Common.{
  ℕ, suc, ◌+◌, ◌-◌, ◌*◌, ◌^◌, String, ◌≡◌, refl, Bool, true, false, ◌&&◌, ◌||◌, not, ◌==◌, leb, ltb,
  str_eq, concat, Option, none, some, List, [], ◌∷◌, lookup, Result, ok, err, value_error,
  key_error, type_error, ◌>>=◌, ◌>>◌, guard, if◌then◌else◌, arith,
}
use pscheduler.Json.{Json, null, bool, num, str, arr, obj, Fields, get, ℤ, pos, negsuc}
use pscheduler.StringMatcher.{lower, lower_char}
use pscheduler.CidrListUrl.Lines.{lstrip, is_space}

-- The units that the expression lets through, with the one that is left out, and their multipliers.
abbrev pub si_multipliers : List (String × ℕ)
si_multipliers =
    ("", 1)
    ∷ ("k", 1000 ^ 1)
    ∷ ("m", 1000 ^ 2)
    ∷ ("g", 1000 ^ 3)
    ∷ ("t", 1000 ^ 4)
    ∷ ("p", 1000 ^ 5)
    ∷ ("e", 1000 ^ 6)
    ∷ ("z", 1000 ^ 7)
    ∷ ("y", 1000 ^ 8)
    ∷ ("ki", 1024 ^ 1)
    ∷ ("mi", 1024 ^ 2)
    ∷ ("gi", 1024 ^ 3)
    ∷ ("ti", 1024 ^ 4)
    ∷ ("pi", 1024 ^ 5)
    ∷ ("ei", 1024 ^ 6)
    ∷ ("zi", 1024 ^ 7)
    ∷ ("yi", 1024 ^ 8)
    ∷ []

-- A number: an integer, or the float that a text says, to be multiplied.
pub data Number : Type 0 where
  whole : ℤ → Number
  scaled : (float : String) → (multiplier : ℕ) → Number

abbrev pub is_digit : Char → Bool
is_digit c = leb 48 (code c) && leb (code c) 57

-- `[0-9]*`, and what follows.
unfoldable pub digits : String → String × String
digits String.[] = (String.[], String.[])
digits (String.◌∷◌ c s) =
    let (ds, rest) = digits s in
    if is_digit c then (String.◌∷◌ c ds, rest) else (String.[], String.◌∷◌ c s)

-- `int(digits)`, after the value of the digits before.
unfoldable pub int_from : ℕ → String → ℕ
int_from n String.[] = n
int_from n (String.◌∷◌ c s) = int_from (10 * n + (code c - 48)) s

-- `$` is also before a newline at the end.
unfoldable pub chomp : String → String
chomp String.[] = String.[]
chomp (String.◌∷◌ c s) =
    let rest = chomp s in if code c == 10 && str_eq s "" then String.[] else String.◌∷◌ c rest

-- The multiplier of `\s*([kmgtpezy][i]?)?$`, whose units are those of the table.
unfoldable pub multiplier_of : String → Option ℕ
multiplier_of s = lookup (chomp (lstrip s)) si_multipliers

unfoldable pub negative : ℕ → ℤ
negative ℕ.zero = pos 0
negative (suc n) = negsuc n

-- `int(sign + ds) * m`.
unfoldable pub product : Bool → String → ℕ → ℤ
product false ds m = pos (int_from 0 ds * m)
product true ds m = negative (int_from 0 ds * m)

abbrev pub sign_text : Bool → String
sign_text false = ""
sign_text true = "-"

-- The number of a match that has no fraction, and of one with the fraction `fs`.
unfoldable pub whole_number : Bool → String → String → Option Number
whole_number sign ds rest = elim (multiplier_of rest) [
  | none ↦ none
  | some m ↦ some (whole (product sign ds m))
]

unfoldable pub fraction_number : Bool → String → String × String → Option Number
fraction_number sign ds (fs, rest) = if str_eq fs "" then none else elim (multiplier_of rest) [
  | none ↦ none
  | some m ↦ some (scaled (concat (sign_text sign ∷ ds ∷ "." ∷ fs ∷ [])) m)
]

-- What follows the digits `ds`.
unfoldable pub after_digits : Bool → String → String → Option Number
after_digits sign ds String.[] = whole_number sign ds ""
after_digits sign ds (String.◌∷◌ c s) =
    if code c == 46
    then fraction_number sign ds (digits s)
    else whole_number sign ds (String.◌∷◌ c s)

unfoldable pub unsigned : Bool → String → Option Number
unsigned sign s =
    let (ds, rest) = digits s in if str_eq ds "" then none else after_digits sign ds rest

-- The number that a text in lower case says, if it matches.
unfoldable pub search : String → Option Number
search String.[] = none
search (String.◌∷◌ c s) = if code c == 45 then unsigned true s else unsigned false (String.◌∷◌ c s)

abbrev truth : Bool → ℕ
truth false = 0
truth true = 1

-- `si_as_number`. A boolean is an integer.
unfoldable pub si_as_number : Json → Result Number
si_as_number (num n) = ok (whole n)
si_as_number (bool b) = ok (whole (pos (truth b)))
si_as_number (str text) = elim (search (lower text)) [
  | none ↦ err (value_error (concat ("Invalid SI value '" ∷ text ∷ "'" ∷ [])))
  | some n ↦ ok n
]
si_as_number v = err (value_error "Source value must be string or integer")

-- `a > b` of Python for numbers of which one is a float.
abbrev pub Comparison : Type 0
Comparison = Number → Number → Bool

-- `a > b`.
unfoldable pub exceeds : Comparison → Number → Number → Bool
exceeds floats (whole (pos a)) (whole (pos b)) = ltb b a
exceeds floats (whole (pos a)) (whole (negsuc b)) = true
exceeds floats (whole (negsuc a)) (whole (pos b)) = false
exceeds floats (whole (negsuc a)) (whole (negsuc b)) = ltb a b
exceeds floats m n = floats m n

pub record Range : Type 0 where
  pub lower : Number
  pub upper : Number

-- A member of the dict; the default stands for a lower bound that is not there.
unfoldable pub member : Fields → String → Option ℤ → Result Number
member m k default = elim (get k m) [
  | some v ↦ si_as_number v
  | none ↦ elim default [
    | some n ↦ ok (whole n)
    | none ↦ err (value_error (concat ("Missing '" ∷ k ∷ "' in input" ∷ [])))
  ]
]

unfoldable pub both : Comparison → Fields → ℤ → Result Range
both floats m default_lower = do
  lower ← member m "lower" (some default_lower)
  upper ← member m "upper" none
  guard (not (exceeds floats lower upper)) (value_error "Lower value must be less than upper value")
  ok (record { lower = lower; upper = upper })

abbrev single : Number → Range
single n = record { lower = n; upper = n }

-- `si_range`, whose default lower bound is an integer.
unfoldable pub si_range : Comparison → Json → ℤ → Result Range
si_range floats (obj m) default_lower = both floats m default_lower
si_range floats (arr vs) default_lower =
    err (type_error "list indices must be integers or slices, not str")
si_range floats null default_lower = err (type_error "argument of type 'NoneType' is not iterable")
si_range floats v default_lower = do n ← si_as_number v; ok (single n)
