-- ===== src/MultisigTool.antt =====
-- cmd/multisigtool/multisigtool.go. A text is the list of its bytes. `none` is a panic, an index out
-- of range. What is printed of a run is the script and its address.
pub mod Script
pub mod Run
mod Tests
use mainstay.Prelude.{
  ℕ, zero, suc, Bool, true, false, ◌&&◌, ◌||◌, not, Option, none, some, List, [], ◌∷◌, ◌++◌, String,
  str_eq, ◌==◌, if◌then◌else◌, length,
}
use mainstay.Prelude.Int.{ℤ, pos, pos_part, ltb_ℤ}
use mainstay.Prelude.Panic.{◌>>=◌}
use mainstay.Text.{bytes_of}
use mainstay.Hex.{encode_to_string, decode_string, decimal}
use mainstay.Script.Multisig.{Keys}

-- How the tool ends: by `log.Error`, which ends the process, or with the address and the script.
pub data Ended (Address : Type 0) : Type 0 where
  exited : Ended Address
  finished : Address × List ℕ → Ended Address

-- `fmt.Sscan` into a number of math/big, which leaves some number when it fails, and the key of
-- btcec with two coordinates.
pub record Coordinates (Pub : Type 0) : Type 0 where
  pub scan : List ℕ → ℤ × Bool
  pub public_key : ℤ → ℤ → Pub

-- The flags.
pub record Flags : Type 0 where
  pub chain : String
  pub n_keys : ℤ
  pub n_sigs : ℤ
  pub keys_x : List ℕ
  pub keys_y : List ℕ
  pub keys : List ℕ

-- A byte put before the first of the parts.
abbrev pub extended : ℕ → List (List ℕ) → List (List ℕ)
extended c [] = (c ∷ []) ∷ []
extended c (part ∷ parts) = (c ∷ part) ∷ parts

-- `strings.Split(s, ",")`
unfoldable pub split : List ℕ → List (List ℕ)
split [] = [] ∷ []
split (c ∷ s) = let rest = split s in if c == 44 then [] ∷ rest else extended c rest

abbrev pub is_empty_text : List ℕ → Bool
is_empty_text [] = true
is_empty_text (c ∷ s) = false

-- The guard on the numbers.
unfoldable pub invalid_numbers : ℤ → ℤ → Bool
invalid_numbers n_keys n_sigs =
    not (ltb_ℤ (pos 0) n_keys)
    || ltb_ℤ (pos 15) n_keys
    || not (ltb_ℤ (pos 0) n_sigs)
    || ltb_ℤ (pos 15) n_sigs
    || ltb_ℤ n_keys n_sigs

module _ {Pub Address : Type 0} (k : Keys Pub Address) where
  -- The loop over the keys; `none` if a key is no hexadecimal text, which ends the process. That
  -- the address of a key cannot be made is left out: its hash always has 20 bytes.
  unfoldable pub append_pubs : List ℕ → List (List ℕ) → Option (List ℕ)
  append_pubs script [] = some script
  append_pubs script (pub_text ∷ pubs) =
      let rest = append_pubs (script ++ 50 ∷ 49 ∷ pub_text) pubs in
      if (decode_string pub_text).1 then rest else none

  abbrev described : ℕ → Option (List ℕ) → Ended Address
  described n_keys none = exited
  described n_keys (some start) =
      let script = (start ++ 53 ∷ decimal n_keys) ++ 97 ∷ 101 ∷ [] in
      finished (k.script_hash_address (decode_string script).0, script)

  unfoldable pub info_from_pubs : List (List ℕ) → ℕ → ℕ → Ended Address
  unfolding append_pubs
  info_from_pubs pubs n_keys n_sigs = described n_keys (append_pubs (53 ∷ decimal n_sigs) pubs)

  module _ (coordinates : Coordinates Pub) where
    -- A number that cannot be read gives a warning only.
    unfoldable pub pub_from_coordinates : List ℕ → List ℕ → Pub
    pub_from_coordinates x y = coordinates.public_key (coordinates.scan x).0 (coordinates.scan y).0

    -- The loop over the coordinates, `n` of each list, in hexadecimal form.
    unfoldable pub pubs_from : ℕ → List (List ℕ) → List (List ℕ) → Option (List (List ℕ))
    unfolding pub_from_coordinates
    pubs_from zero xs ys = some []
    pubs_from (suc n) [] ys = none
    pubs_from (suc n) (x ∷ xs) [] = none
    pubs_from (suc n) (x ∷ xs) (y ∷ ys) = pubs_from n xs ys >>= λ pubs.
        some (encode_to_string (k.serialize_compressed (pub_from_coordinates x y)) ∷ pubs)

    unfoldable pub do_main : Flags → Option (Ended Address)
    do_main f =
        let n = pos_part f.n_keys in
        let s = pos_part f.n_sigs in
        if invalid_numbers f.n_keys f.n_sigs
        then some exited
        else if is_empty_text f.keys && is_empty_text f.keys_x && is_empty_text f.keys_y
        then some exited
        else if is_empty_text f.keys
        then (if not (length (split f.keys_x) == n) && not (length (split f.keys_y) == n)
            then some exited
            else (pubs_from n (split f.keys_x) (split f.keys_y) >>= λ pubs.
                some (info_from_pubs pubs n s)))
        else if not (length (split f.keys) == n)
        then some exited
        else some (info_from_pubs (split f.keys) n s)

    -- One signature of two keys: a key in hexadecimal form, and one by its coordinates.
    unfoldable pub do_regtest : Ended Address
    unfolding info_from_pubs pub_from_coordinates
    do_regtest =
        let hsm_pub_x =
          bytes_of
            "17073944010873801765385810419928396464299027769026919728232198509972577863206" in
        let hsm_pub_y =
          bytes_of "475813022329769762590164284448176075334749443379722569322944728779216384721" in
        let main_pub =
          bytes_of "03e52cf15e0a5cf6612314f077bb65cf9a6596b76c0fcb34b682f673a8314c7b33" in
        let pub_enc =
          encode_to_string (k.serialize_compressed (pub_from_coordinates hsm_pub_x hsm_pub_y)) in
        info_from_pubs (main_pub ∷ pub_enc ∷ []) 2 1

pub data Network : Type 0 where
  regtest testnet mainnet : Network

unfoldable pub main :
    {Pub Address : Type 0}
    → (Network → Keys Pub Address)
    → Coordinates Pub
    → Flags
    → Option (Ended Address)
unfolding do_main do_regtest
main params c f =
    if str_eq f.chain "regtest"
    then some (do_regtest (params regtest) c)
    else if str_eq f.chain "testnet"
    then do_main (params testnet) c f
    else do_main (params mainnet) c f
