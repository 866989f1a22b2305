-- ===== src/Common/Texts.antt =====
-- Texts as the program builds them: `%` formatting is written as the concatenation of its parts.
use Prim.Native.Nat.{ℕ, zero, suc, ◌+◌, ◌/◌, ◌%◌}
use Prim.Native.Char.{code}
use Prim.Native.String.{String}
use Prim.Native.String
use mathlib.Core.Path.{◌≡◌, refl}
use mathlib.Core.List.{List, [], ◌∷◌}
use mathlib.Core.Bool.{Bool, true, false, ◌&&◌}
use pscheduler.Common.Tests.{◌==◌, ltb, if◌then◌else◌}

abbrev pub concat : List String → String
concat [] = ""
concat (s ∷ ss) = String.◌++◌ s (concat ss)

-- `sep.join(texts)`.
abbrev pub join : String → List String → String
join sep [] = ""
join sep (s ∷ []) = s
join sep (s ∷ t ∷ ss) = String.◌++◌ s (String.◌++◌ sep (join sep (t ∷ ss)))

-- `indent(text)` of python-pscheduler/pscheduler/pscheduler/text.py with its default arguments: two
-- spaces in front of each line.
after_newlines : String → String
after_newlines String.[] = ""
after_newlines (String.◌∷◌ c s) =
    let rest = after_newlines s in
    if code c == 10 then String.◌∷◌ c (String.◌++◌ "  " rest) else String.◌∷◌ c rest

unfoldable pub indent : String → String
unfolding after_newlines
indent s = String.◌++◌ "  " (after_newlines s)

indent_test : indent "a\nb" ≡ "  a\n  b"
unfolding indent
indent_test = refl

unfoldable pub digit : ℕ → String
digit zero = "0"
digit (suc zero) = "1"
digit (suc (suc zero)) = "2"
digit (suc (suc (suc zero))) = "3"
digit (suc (suc (suc (suc zero)))) = "4"
digit (suc (suc (suc (suc (suc zero))))) = "5"
digit (suc (suc (suc (suc (suc (suc zero)))))) = "6"
digit (suc (suc (suc (suc (suc (suc (suc zero))))))) = "7"
digit (suc (suc (suc (suc (suc (suc (suc (suc zero)))))))) = "8"
digit _ = "9"

-- A number below 2 ^ fuel has fewer than fuel + 1 decimal digits.
unfoldable pub decimal_digits : ℕ → ℕ → String
unfolding digit
decimal_digits zero n = ""
decimal_digits (suc fuel) n =
    let rest = decimal_digits fuel (n / 10) in
    if ltb n 10 then digit n else String.◌++◌ rest (digit (n % 10))

-- `"%d" % n`.
unfoldable pub decimal : ℕ → String
unfolding decimal_digits
decimal n = decimal_digits (n + 1) n

decimal_test : decimal 12045 ≡ "12045"
unfolding decimal
decimal_test = refl

-- `text.startswith(prefix)`.
unfoldable pub starts_with : String → String → Bool
starts_with String.[] s = true
starts_with (String.◌∷◌ d p) String.[] = false
starts_with (String.◌∷◌ d p) (String.◌∷◌ c s) = code d == code c && starts_with p s
