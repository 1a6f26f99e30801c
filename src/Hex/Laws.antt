-- ===== src/Hex/Laws.antt =====
-- Hexadecimal text is read back, and what a decimal number ends in.
use mainstay.Prelude.{
  ℕ, ◌+◌, ◌*◌, ◌/◌, ◌%◌, ◌<◌, ◌≡◌, refl, arith, true, some, List, [], ◌∷◌, ◌++◌, length, ltb,
  ltb→lt, Bool-cases, inl, inr,
}
use mainstay.Hex.{hex_digit, hex_value, encode_to_string, decode_string, decimal_digits, decimal}

-- Every element is a byte.
abbrev pub AllBytes : List ℕ → Type 0
AllBytes [] = Unit {0}
AllBytes (b ∷ bs) = (b < 256) × AllBytes bs

pub hex_value-digit : (n : ℕ) → n < 16 → hex_value (hex_digit n) ≡ some n
hex_value-digit n h = ground arith

pub decode_string-encode :
    (bs : List ℕ) → AllBytes bs → decode_string (encode_to_string bs) ≡ (bs, true)
unfolding decode_string encode_to_string
decode_string-encode [] h = refl
decode_string-encode (b ∷ bs) h =
    let byte : b / 16 * 16 + b % 16 ≡ b = omega arith in
    rw
      (
        hex_value-digit (b / 16) (omega arith),
        hex_value-digit (b % 16) (omega arith),
        decode_string-encode bs h.1,
        byte,
      )
      refl

pub length-encode : (bs : List ℕ) → length (encode_to_string bs) ≡ 2 * length bs
unfolding encode_to_string
length-encode [] = refl
length-encode (b ∷ bs) = omega (arith, length-encode bs)

pub decimal-digit : (n : ℕ) → n < 10 → decimal n ≡ (48 + n) ∷ []
unfolding decimal
decimal-digit n h = ground arith

-- A decimal number ends in its last digit.
pub decimal-last : (n : ℕ) → (front : List ℕ) × (decimal n ≡ front ++ (48 + n % 10) ∷ [])
unfolding decimal
decimal-last n = elim (Bool-cases (ltb n 10)) [
  | inl small ↦ ([], rw (small, digit (ltb→lt n 10 small)) refl)
  | inr large ↦ (decimal_digits n (n / 10), rw large refl)
]
  where
    digit : n < 10 → n % 10 ≡ n
    digit h = omega arith
