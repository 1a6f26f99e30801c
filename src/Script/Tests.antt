-- ===== src/Script/Tests.antt =====
-- Runs of the script code, and the theorems of Script at concrete inputs.
use mainstay.Prelude.{
  ℕ, zero, suc, ◌≡◌, ◌≢◌, refl, arith, some, none, List, [], ◌∷◌, replicate, true, false,
}
use mainstay.Script.{Sig, parse_script_sig, create_script_sig}
use mainstay.Script.Roundtrip.{parse_script_sig-create}
use mainstay.Script.Multisig.{create_multisig, parse_redeem_script}
use mainstay.Script.Redeem.{parse_redeem_script-create}
use mainstay.Hex.{decimal, encode_to_string, decode_string}
use mainstay.Script.Toy.{two_keys, two_keys-IsCompressed}
use mainstay.Script.Fuel.{Ends, parse_script_sig-Ends}
use mainstay.Script.Sizes.{AllSigs, parse_script_sig_long}
use mainstay.Hex.Laws.{AllBytes}

abbrev two_sigs : List Sig
two_sigs = (48 ∷ 1 ∷ []) ∷ (48 ∷ 2 ∷ 3 ∷ []) ∷ []

created :
    create_script_sig two_sigs (81 ∷ 174 ∷ []) ≡ 0 ∷ 2 ∷ 48 ∷ 1 ∷ 3 ∷ 48 ∷ 2 ∷ 3 ∷ 2 ∷ 81 ∷ 174 ∷ []
unfolding create_script_sig
created = refl

-- A script of one byte panics.
one_byte : parse_script_sig (0 ∷ []) ≡ none
unfolding parse_script_sig
one_byte = refl

parse_script_sig-create_example :
    parse_script_sig (create_script_sig two_sigs (81 ∷ 174 ∷ [])) ≡ some (two_sigs, 81 ∷ 174 ∷ [])
parse_script_sig-create_example =
    parse_script_sig-create two_sigs (81 ∷ 174 ∷ []) (omega arith) (omega arith)

parse_script_sig-Ends_example :
    Ends (0 ∷ 1 ∷ 9 ∷ 1 ∷ 8 ∷ []) 1 [] (parse_script_sig (0 ∷ 1 ∷ 9 ∷ 1 ∷ 8 ∷ []))
parse_script_sig-Ends_example = parse_script_sig-Ends 0 (1 ∷ 9 ∷ 1 ∷ 8 ∷ [])

sevens-AllBytes : (n : ℕ) → AllBytes (replicate n 7)
sevens-AllBytes zero = tt
sevens-AllBytes (suc n) = (omega arith, sevens-AllBytes n)

two_sigs-AllSigs : AllSigs two_sigs
two_sigs-AllSigs = ground arith

parse_script_sig_long_example :
    parse_script_sig (create_script_sig two_sigs (replicate 300 7))
    ≢ some (two_sigs, replicate 300 7)
parse_script_sig_long_example =
    parse_script_sig_long two_sigs (replicate 300 7) two_sigs two_sigs-AllSigs (sevens-AllBytes 300)
      (omega arith)

parse_redeem_script-create_example :
    parse_redeem_script two_keys (create_multisig two_keys (true ∷ false ∷ []) 1).1
    ≡ some (true ∷ false ∷ [], 1)
parse_redeem_script-create_example =
    parse_redeem_script-create two_keys two_keys-IsCompressed (true ∷ false ∷ []) 1 (omega arith)

-- The keys of a script of eleven are cut to one.
eleven_keys :
    parse_redeem_script two_keys (create_multisig two_keys (replicate 11 true) 1).1
    ≡ some (true ∷ [], 1)
unfolding create_multisig parse_redeem_script decimal encode_to_string decode_string
eleven_keys = refl
