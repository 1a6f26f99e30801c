-- ===== src/Script/Multisig.antt =====
-- crypto/scripts.go: CreateMultisig and ParseRedeemScript. A text is the list of its bytes. `none`
-- is a panic, an index or a slice out of range, or the end of the process by `log.Error`.
use mainstay.Prelude.{
  ℕ, zero, suc, ◌+◌, ◌-◌, ◌*◌, ◌&&◌, ◌||◌, not, Option, none, some, List, [], ◌∷◌, ◌++◌, ◌==◌,
  if◌then◌else◌, length, get_elem?, leb,
}
use mainstay.Prelude.Panic.{◌>>=◌}
use mainstay.Hex.{hex_value, encode_to_string, decode_string, decimal}
use mainstay.Script.{slice}

-- What the code takes from btcec and btcutil: the methods and functions SerializeCompressed,
-- ParsePubKey (`none` is an error) and NewAddressScriptHash, for the chain that is configured.
pub record Keys (Pub Address : Type 0) : Type 0 where
  pub serialize_compressed : Pub → List ℕ
  pub parse_pub_key : List ℕ → Option Pub
  pub script_hash_address : List ℕ → Address

-- The loop that appends the keys.
unfoldable pub append_keys : {Pub : Type 0} → (Pub → List ℕ) → List ℕ → List Pub → List ℕ
append_keys serialize script [] = script
append_keys serialize script (key ∷ keys) =
    append_keys serialize ((script ++ 50 ∷ 49 ∷ []) ++ encode_to_string (serialize key)) keys

-- The script, and the address for it. The number of signatures is not negative.
unfoldable pub create_multisig :
    {Pub Address : Type 0} → Keys Pub Address → List Pub → ℕ → Address × List ℕ
unfolding append_keys
create_multisig k pubkeys n_sigs =
    let script =
      (append_keys k.serialize_compressed (53 ∷ decimal n_sigs) pubkeys
        ++ 53 ∷ decimal (length pubkeys))
      ++ 97 ∷ 101 ∷ [] in
    (k.script_hash_address (decode_string script).0, script)

-- `script[from:to]`, where `from` is at most `to`.
unfoldable pub checked_slice : List ℕ → ℕ → ℕ → Option (List ℕ)
checked_slice script from to =
    if leb to (length script) then some (slice script from (to - from)) else none

-- `script[lscript - i]`
unfoldable pub from_end : ℕ → List ℕ → Option ℕ
from_end i script = if leb i (length script) then get_elem? script (length script - i) else none

-- `strconv.Atoi` of a text of one byte, 0 on an error.
abbrev pub digit_value : ℕ → ℕ
digit_value c = if leb 48 c && leb c 57 then c - 48 else 0

-- `strconv.ParseInt` of a text of two bytes in base 16, if it gives a size of a key; any other
-- value, or an error, ends the process.
abbrev pub key_size : List ℕ → Option ℕ
key_size (c ∷ d ∷ []) = hex_value c >>= λ hi. hex_value d >>= λ lo.
    let size = hi * 16 + lo in if size == 65 || size == 33 then some size else none
key_size other = none

module _ {Pub Address : Type 0} (k : Keys Pub Address) where
  -- One round of the loop: a key, and the index behind it.
  unfoldable pub key_at : List ℕ → ℕ → Option (Pub × ℕ)
  unfolding checked_slice
  key_at script start_index =
      checked_slice script start_index (start_index + 2) >>= key_size >>= λ size.
      let end_index = start_index + 2 + 2 * size in
      checked_slice script (start_index + 2) end_index >>= λ keystr.
      k.parse_pub_key (decode_string keystr).0 >>= λ key. some (key, end_index)

  unfoldable pub parse_keys : ℕ → ℕ → List ℕ → Option (List Pub)
  unfolding key_at
  parse_keys zero start_index script = some []
  parse_keys (suc n) start_index script = key_at script start_index >>= λ (key, next).
      parse_keys n next script >>= λ keys. some (key ∷ keys)

  unfoldable pub parse_redeem_script : List ℕ → Option (List Pub × ℕ)
  unfolding parse_keys from_end
  parse_redeem_script script = get_elem? script 0 >>= λ op. from_end 4 script >>= λ op1.
      from_end 2 script >>= λ a. from_end 1 script >>= λ e. get_elem? script 1 >>= λ sigs.
      from_end 3 script >>= λ keys.
      if (not (op == op1) && op1 == 53) || not (a == 97 && e == 101)
      then none
      else (parse_keys (digit_value keys) 2 script >>= λ pubkeys. some (pubkeys, digit_value sigs))
