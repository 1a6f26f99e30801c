-- ===== src/Script/Redeem.antt =====
-- ParseRedeemScript reads what CreateMultisig writes, as far as the number of keys has one digit.
use mathlib.Core.List.{append-nil, append_assoc}
use mainstay.Prelude.{
  ℕ, zero, suc, ◌+◌, ◌-◌, ◌*◌, ◌%◌, ◌≤◌, ◌<◌, ◌≡◌, refl, sym, ap, ◌∙◌, arith, some, true, false,
  List, [], ◌∷◌, ◌++◌, ◌==◌, ◌&&◌, not, length, take, get_elem?, leb, length-append,
  get_elem?-append_right, take-append, drop-append,
}
use mainstay.Prelude.Panic.{◌>>=◌}
use mainstay.Hex.{encode_to_string, decimal}
use mainstay.Hex.Laws.{AllBytes, decode_string-encode, length-encode, decimal-digit, decimal-last}
use mainstay.Script.Multisig.{
  Keys, append_keys, create_multisig, checked_slice, from_end, digit_value, key_at, parse_keys,
  parse_redeem_script,
}

-- A compressed key has 33 bytes, and is parsed to the key.
pub record IsCompressed {Pub Address : Type 0} (k : Keys Pub Address) : Type 0 where
  pub bytes : (key : Pub) → AllBytes (k.serialize_compressed key)
  pub size : (key : Pub) → length (k.serialize_compressed key) ≡ 33
  pub parsed : (key : Pub) → k.parse_pub_key (k.serialize_compressed key) ≡ some key

checked_slice-eq :
    (pre mid rest : List ℕ) (from to : ℕ)
    → from ≡ length pre
    → to ≡ from + length mid
    → checked_slice (pre ++ mid ++ rest) from to ≡ some mid
unfolding checked_slice
checked_slice-eq pre mid rest from to e e' =
    let inside : leb to (length (pre ++ mid ++ rest)) ≡ true =
      ground (arith, length-append (pre ++ mid) rest, length-append pre mid) in
    let size : to - from ≡ length mid = omega arith in
    rw (inside, size, e, append_assoc pre mid rest, drop-append, take-append) refl

from_end-eq :
    (pre end : List ℕ) (i : ℕ)
    → i ≤ length end
    → from_end i (pre ++ end) ≡ get_elem? end (length end - i)
unfolding from_end
from_end-eq pre end i h =
    let size = length-append pre end in
    let inside : leb i (length (pre ++ end)) ≡ true = ground (arith, size) in
    let at : length (pre ++ end) - i ≡ length pre + (length end - i) = omega (arith, size) in
    rw (inside, at) (get_elem?-append_right pre end (length end - i))

-- The last element of a list that has a first.
snoc : (x : ℕ) (xs : List ℕ) → (front : List ℕ) × (last : ℕ) × (x ∷ xs ≡ front ++ last ∷ [])
snoc x [] = ([], x, refl)
snoc x (y ∷ xs) = let (front, last, e) = snoc y xs in (x ∷ front, last, ap (◌∷◌ x) e)

-- What stands behind the keys.
abbrev ending : List ℕ → List ℕ
ending count = (53 ∷ count) ++ 97 ∷ 101 ∷ []

ending-digit :
    (n : ℕ)
    → (shown : List ℕ) × (x : ℕ) × (ending (decimal n) ≡ shown ++ x ∷ (48 + n % 10) ∷ 97 ∷ 101 ∷ [])
ending-digit n =
    let (front, e) = decimal-last n in
    let (shown, x, e') = snoc 53 front in
    let digit = 48 + n % 10 in
    let tail = digit ∷ 97 ∷ 101 ∷ [] in
    (
      shown,
      x,
      ap ending e
          ∙ append_assoc (53 ∷ front) (digit ∷ []) (97 ∷ 101 ∷ [])
          ∙ ap (λ l. l ++ tail) e'
          ∙ append_assoc shown (x ∷ []) tail,
    )

module _ {Pub Address : Type 0} (k : Keys Pub Address) where
  key_text : Pub → List ℕ
  key_text key = encode_to_string (k.serialize_compressed key)

  keys_text : List Pub → List ℕ
  unfolding key_text
  keys_text [] = []
  keys_text (key ∷ keys) = 50 ∷ 49 ∷ (key_text key ++ keys_text keys)

  append_keys-eq :
      (pre : List ℕ) (keys : List Pub)
      → append_keys k.serialize_compressed pre keys ≡ pre ++ keys_text keys
  unfolding append_keys keys_text
  append_keys-eq pre [] = sym (append-nil pre)
  append_keys-eq pre (key ∷ keys) =
      let text = encode_to_string (k.serialize_compressed key) in
      append_keys-eq ((pre ++ 50 ∷ 49 ∷ []) ++ text) keys
      ∙ append_assoc (pre ++ 50 ∷ 49 ∷ []) text (keys_text keys)
      ∙ append_assoc pre (50 ∷ 49 ∷ []) (text ++ keys_text keys)

  -- One round at a key.
  key_at-eq :
      IsCompressed k
      → (pre rest : List ℕ) (key : Pub) (at : ℕ) → at ≡ length pre
      → key_at k (pre ++ 50 ∷ 49 ∷ (key_text key ++ rest)) at ≡ some (key, at + 68)
  unfolding key_at key_text
  key_at-eq h pre rest key at e =
      let bytes = k.serialize_compressed key in
      let text = encode_to_string bytes in
      let size = length-encode bytes in
      let size' = h.size key in
      let moved = append_assoc pre (50 ∷ 49 ∷ []) (text ++ rest) in
      let first = checked_slice-eq pre (50 ∷ 49 ∷ []) (text ++ rest) at (at + 2) e (omega arith) in
      let second =
        checked_slice-eq (pre ++ 50 ∷ 49 ∷ []) text rest (at + 2) (at + 2 + 2 * 33)
          (omega (arith, length-append pre (50 ∷ 49 ∷ []))) (omega (arith, size, size')) in
      let second' = rw (append_assoc (pre ++ 50 ∷ 49 ∷ []) text rest, moved) at second in
      let behind : at + 2 + 2 * 33 ≡ at + 68 = omega arith in
      rw
        (rw moved at first, second', decode_string-encode bytes (h.bytes key), h.parsed key, behind)
        refl

  parse_keys-eq :
      IsCompressed k
      → (n : ℕ) (pre : List ℕ) (keys : List Pub) (rest : List ℕ) (at : ℕ) → n ≤ length keys
      → at ≡ length pre
      → parse_keys k n at (pre ++ (keys_text keys ++ rest)) ≡ some (take n keys)
  unfolding parse_keys keys_text
  parse_keys-eq h zero pre keys rest at few e = refl
  parse_keys-eq h (suc n) pre [] rest at few e = absurd (omega arith)
  parse_keys-eq h (suc n) pre (key ∷ keys) rest at few e =
      let text = encode_to_string (k.serialize_compressed key) in
      let size = length-encode (k.serialize_compressed key) in
      let size' = h.size key in
      let behind = append_assoc text (keys_text keys) rest in
      let round = key_at-eq h pre (keys_text keys ++ rest) key at e in
      let moved = append_assoc pre (50 ∷ 49 ∷ text) (keys_text keys ++ rest) in
      let ih =
        parse_keys-eq h n (pre ++ 50 ∷ 49 ∷ text) keys rest (at + 68) (omega arith)
          (omega (arith, length-append pre (50 ∷ 49 ∷ text), size, size')) in
      rw (behind, round, rw moved at ih) refl

  script-eq :
      (keys : List Pub) (n_sigs : ℕ)
      → n_sigs < 10
      → (create_multisig k keys n_sigs).1
        ≡ (53 ∷ (48 + n_sigs) ∷ []) ++ (keys_text keys ++ ending (decimal (length keys)))
  unfolding create_multisig
  script-eq keys n_sigs h =
      rw (decimal-digit n_sigs h, append_keys-eq (53 ∷ (48 + n_sigs) ∷ []) keys) (simp append_assoc)

  -- The bytes that the script is checked for, four before its end and one behind its start.
  parse-ending :
      (b c : ℕ) (mid : List ℕ) (x d : ℕ)
      → b ≡ 53
      → parse_redeem_script k (b ∷ c ∷ (mid ++ x ∷ d ∷ 97 ∷ 101 ∷ [])) ≡ (
          parse_keys k (digit_value d) 2 (b ∷ c ∷ (mid ++ x ∷ d ∷ 97 ∷ 101 ∷ [])) >>= λ pubkeys.
          some (pubkeys, digit_value c))
  unfolding parse_redeem_script
  parse-ending b c mid x d e =
      let at = from_end-eq (b ∷ c ∷ mid) (x ∷ d ∷ 97 ∷ 101 ∷ []) in
      let fine : (not (53 == x) && x == 53) ≡ false = ground arith in
      rw (at 4 (omega arith), at 3 (omega arith), at 2 (omega arith), at 1 (omega arith), e, fine)
        refl

  -- If a compressed key has 33 bytes and is parsed to the key, and there are at most nine
  -- signatures, ParseRedeemScript of the script that CreateMultisig makes succeeds, with that
  -- number of signatures; of the keys it gives as many as the last decimal digit of their number
  -- says: all of them up to nine, none of ten.
  pub parse_redeem_script-create :
      IsCompressed k
      → (keys : List Pub) (n_sigs : ℕ) → n_sigs < 10
      → parse_redeem_script k (create_multisig k keys n_sigs).1
        ≡ some (take (length keys % 10) keys, n_sigs)
  parse_redeem_script-create h keys n_sigs few =
      let (shown, x, e) = ending-digit (length keys) in
      let digit : digit_value (48 + length keys % 10) ≡ length keys % 10 = ground arith in
      let sigs : digit_value (48 + n_sigs) ≡ n_sigs = ground arith in
      let mid = keys_text keys ++ shown in
      let last = 48 + length keys % 10 in
      let moved = append_assoc (keys_text keys) shown (x ∷ last ∷ 97 ∷ 101 ∷ []) in
      let read = rw moved at (parse-ending 53 (48 + n_sigs) mid x last refl) in
      let parsed =
        parse_keys-eq h (length keys % 10) (53 ∷ (48 + n_sigs) ∷ []) keys
          (shown ++ x ∷ last ∷ 97 ∷ 101 ∷ []) 2 (omega arith) refl in
      rw (script-eq keys n_sigs few, e, read, digit, parsed, sigs) refl
