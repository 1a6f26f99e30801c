-- ===== src/Hex.antt =====
-- What the program uses of Go's packages encoding/hex and fmt on the bytes of a text: a text is
-- the list of its bytes, and a byte is a number below 256.
pub mod Laws
use mainstay.Prelude.{
  ℕ, zero, suc, ◌+◌, ◌-◌, ◌*◌, ◌/◌, ◌%◌, Bool, true, false, ◌&&◌, Option, none, some, List, [], ◌∷◌,
  ◌++◌, ltb, leb, if◌then◌else◌,
}

abbrev pub hex_digit : ℕ → ℕ
hex_digit n = if ltb n 10 then 48 + n else 87 + n

abbrev pub hex_value : ℕ → Option ℕ
hex_value c =
    if leb 48 c && leb c 57
    then some (c - 48)
    else if leb 97 c && leb c 102
    then some (c - 87)
    else if leb 65 c && leb c 70
    then some (c - 55)
    else none

-- `hex.EncodeToString`
unfoldable pub encode_to_string : List ℕ → List ℕ
encode_to_string [] = []
encode_to_string (b ∷ bs) = hex_digit (b / 16) ∷ hex_digit (b % 16) ∷ encode_to_string bs

pub decode_pair : Option ℕ → Option ℕ → List ℕ × Bool → List ℕ × Bool
decode_pair none low rest = ([], false)
decode_pair (some hi) none rest = ([], false)
decode_pair (some hi) (some lo) (bytes, fine) = ((hi * 16 + lo) ∷ bytes, fine)

-- `hex.DecodeString`: the bytes before an error, and whether there was none.
unfoldable pub decode_string : List ℕ → List ℕ × Bool
unfolding decode_pair
decode_string [] = ([], true)
decode_string (c ∷ []) = ([], false)
decode_string (c ∷ d ∷ s) = decode_pair (hex_value c) (hex_value d) (decode_string s)

-- The decimal digits, on fuel that bounds their number.
decimal_digits : ℕ → ℕ → List ℕ
decimal_digits zero n = []
decimal_digits (suc fuel) n =
    let rest = decimal_digits fuel (n / 10) in
    if ltb n 10 then (48 + n) ∷ [] else rest ++ (48 + n % 10) ∷ []

-- `fmt.Sprintf("%d", n)` of a number that is not negative.
unfoldable pub decimal : ℕ → List ℕ
unfolding decimal_digits
decimal n = decimal_digits (suc n) n
