-- ===== src/Script/Toy.antt =====
-- Two concrete keys for the tests.
use mainstay.Prelude.{
  ◌≡◌, refl, arith, some, none, List, [], ◌∷◌, replicate, length, Bool, true, false, ℕ, Option,
  ◌==◌, if◌then◌else◌,
}
use mainstay.Script.Multisig.{Keys}
use mainstay.Script.Redeem.{IsCompressed}
use mainstay.Hex.Laws.{AllBytes}

-- Two keys, told apart by their first byte; an address is the script.
abbrev pub key_bytes : Bool → List ℕ
key_bytes true = 2 ∷ replicate 32 7
key_bytes false = 3 ∷ replicate 32 7

abbrev pub parse_key : List ℕ → Option Bool
parse_key [] = none
parse_key (b ∷ bs) = if b == 2 then some true else if b == 3 then some false else none

abbrev pub two_keys : Keys Bool (List ℕ)
two_keys = record {
  serialize_compressed = key_bytes;
  parse_pub_key = parse_key;
  script_hash_address = λ script. script;
}

pub two_keys-IsCompressed : IsCompressed two_keys
two_keys-IsCompressed = record { bytes = bytes; size = size; parsed = parsed }
  where
    bytes : (key : Bool) → AllBytes (key_bytes key)
    bytes true = omega arith
    bytes false = omega arith

    size : (key : Bool) → length (key_bytes key) ≡ 33
    size true = refl
    size false = refl

    parsed : (key : Bool) → parse_key (key_bytes key) ≡ some key
    parsed true = refl
    parsed false = refl
