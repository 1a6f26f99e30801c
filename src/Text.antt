-- ===== src/Text.antt =====
-- What the program uses of Go's packages strings and strconv. A text is the native `String`, a
-- sequence of characters.
mod Tests
use Prim.Native.Char.{Char, code}
use Prim.Native.String.{◌++◌ as ◌⧺◌}
use mainstay.Prelude.{
  ℕ, ◌+◌, ◌-◌, ◌*◌, Bool, true, false, ◌&&◌, ◌||◌, Option, none, some, List, [], ◌∷◌, map, String,
  ◌==◌, ltb, leb, if◌then◌else◌,
}
use mainstay.Prelude.Int.{ℤ, pos, negsuc}

-- `fmt.Sprintf("%s: %s", err, name)`
abbrev pub prefixed : String → String → String
prefixed message name = message ⧺ (": " ⧺ name)

-- A character put before the first of the parts.
unfoldable pub extend : Char → List String → List String
extend c [] = (String.◌∷◌ c String.[]) ∷ []
extend c (part ∷ parts) = (String.◌∷◌ c part) ∷ parts

-- `strings.Split(s, ",")`
unfoldable pub split_commas : String → List String
unfolding extend
split_commas String.[] = "" ∷ []
split_commas (String.◌∷◌ c s) =
    let rest = split_commas s in if code c == 44 then "" ∷ rest else extend c rest

-- `unicode.IsSpace`
abbrev is_space : ℕ → Bool
is_space c =
    (leb 9 c && leb c 13)
    || c == 32
    || c == 133
    || c == 160
    || c == 5760
    || (leb 8192 c && leb c 8202)
    || c == 8232
    || c == 8233
    || c == 8239
    || c == 8287
    || c == 12288

trim_left : String → String
trim_left String.[] = ""
trim_left (String.◌∷◌ c s) =
    let rest = trim_left s in if is_space (code c) then rest else String.◌∷◌ c s

-- A character before trimmed text: it goes too, if it is a space and nothing is left behind it.
before_trimmed : Char → String → String
before_trimmed c String.[] = if is_space (code c) then "" else String.◌∷◌ c String.[]
before_trimmed c (String.◌∷◌ d s) = String.◌∷◌ c (String.◌∷◌ d s)

trim_right : String → String
unfolding before_trimmed
trim_right String.[] = ""
trim_right (String.◌∷◌ c s) = before_trimmed c (trim_right s)

-- `strings.TrimSpace`
unfoldable pub trim_space : String → String
unfolding trim_left trim_right
trim_space s = trim_right (trim_left s)

-- The digits of a number in base ten, behind those read so far.
digits : ℕ → String → Option ℕ
digits n String.[] = some n
digits n (String.◌∷◌ c s) =
    let rest = digits (n * 10 + (code c - 48)) s in
    if leb 48 (code c) && leb (code c) 57 then rest else none

-- At least one digit.
unsigned : String → Option ℕ
unfolding digits
unsigned String.[] = none
unsigned (String.◌∷◌ c s) = digits 0 (String.◌∷◌ c s)

positive : Option ℕ → Option ℤ
positive none = none
positive (some n) = if leb n 9223372036854775807 then some (pos n) else none

negative : Option ℕ → Option ℤ
negative none = none
negative (some n) =
    if n == 0
    then some (pos 0)
    else if leb n 9223372036854775808
    then some (negsuc (n - 1))
    else none

-- `strconv.Atoi`: `none` is an error, of syntax or of range.
unfoldable pub atoi : String → Option ℤ
unfolding unsigned positive negative
atoi String.[] = none
atoi (String.◌∷◌ c s) =
    if code c == 43
    then positive (unsigned s)
    else if code c == 45
    then negative (unsigned s)
    else positive (unsigned (String.◌∷◌ c s))

abbrev pub bytes_of : String → List ℕ
bytes_of String.[] = []
bytes_of (String.◌∷◌ c s) = code c ∷ bytes_of s
