-- ===== src/CidrListUrl/Lines.antt =====
-- The lines of a list of blocks.
use Prim.Native.Char.{Char, code}
use pscheduler.Common.{
  String, ◌≡◌, refl, Bool, true, ◌&&◌, ◌||◌, ◌==◌, leb, str_eq, List, [], ◌∷◌, if◌then◌else◌,
}

add_char : Char → List String → List String
add_char c [] = String.◌∷◌ c "" ∷ []
add_char c (line ∷ lines) = String.◌∷◌ c line ∷ lines

-- `text.split('\n')`.
unfoldable pub split_lines : String → List String
unfolding add_char
split_lines String.[] = "" ∷ []
split_lines (String.◌∷◌ c s) =
    let rest = split_lines s in if code c == 10 then "" ∷ rest else add_char c rest

-- `line.split('#', 1)[0]`.
unfoldable pub uncommented : String → String
uncommented String.[] = ""
uncommented (String.◌∷◌ c s) =
    let rest = uncommented s in if code c == 35 then "" else String.◌∷◌ c rest

-- The white space of ASCII.
unfoldable pub is_space : Char → Bool
is_space c =
    code c == 32 || (leb 9 (code c) && leb (code c) 13) || (leb 28 (code c) && leb (code c) 31)

unfoldable pub lstrip : String → String
lstrip String.[] = ""
lstrip (String.◌∷◌ c s) = let rest = lstrip s in if is_space c then rest else String.◌∷◌ c s

unfoldable pub rstrip : String → String
rstrip String.[] = ""
rstrip (String.◌∷◌ c s) =
    let rest = rstrip s in if is_space c && str_eq rest "" then "" else String.◌∷◌ c rest

-- What is left of a line: no comment, and no white space around it.
unfoldable pub cleaned : String → String
cleaned line = rstrip (lstrip (uncommented line))

unfoldable pub blocks_of : (String → Bool) → List String → List String
blocks_of accepts [] = []
blocks_of accepts (line ∷ lines) =
    let rest = blocks_of accepts lines in
    let cidr = cleaned line in
    if str_eq cidr "" then rest else if accepts cidr then cidr ∷ rest else rest

-- The blocks of a text, in order: those of its lines that the tree accepts.
unfoldable pub blocks : (String → Bool) → String → List String
blocks accepts text = blocks_of accepts (split_lines text)

blocks_test :
    blocks (λ s. true) "10.0.0.0/8 # ten\n\n# none\n ::1/128" ≡ "10.0.0.0/8" ∷ "::1/128" ∷ []
unfolding blocks blocks_of split_lines cleaned uncommented lstrip rstrip is_space add_char
blocks_test = refl
