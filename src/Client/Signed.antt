-- ===== src/Client/Signed.antt =====
-- A transaction that signAttestation signs carries the signatures that it was given.
use mainstay.Prelude.{
  ℕ, zero, suc, ◌+◌, ◌≤◌, ◌<◌, ◌≡◌, ◌≢◌, refl, arith, Bool, true, false, none, some, List, [], ◌∷◌,
  ◌++◌, ◌==◌, if◌then◌else◌, length, get_elem?, take, ltb, length-append, get_elem?-append_right,
}
use mathlib.Core.List.{append_assoc}
use mainstay.Hashing.{Hashing}
use mainstay.Hex.{decode_string}
use mainstay.Wire.{Wire, MsgTx, TxIn, Result, ok}
use mainstay.Script.{Sig, parse_script_sig, create_script_sig}
use mainstay.Script.Roundtrip.{AllPlain, parse_script_sig-create}
use mainstay.Client.{AttestClient}
use mainstay.Client.Keys.{KeyClient, KeyTools, get_script_from_hash}
use mainstay.Client.Sign.{Signing, signed_input, signed_inputs, combine_sigs, sign_attestation}

take-AllPlain : (n : ℕ) (sigs : List Sig) → AllPlain sigs → AllPlain (take n sigs)
take-AllPlain zero sigs h = tt
take-AllPlain (suc n) [] h = tt
take-AllPlain (suc n) (sig ∷ sigs) h = (h.0, take-AllPlain n sigs h.1)

-- The bytes of the script for an input.
abbrev pub script_of : AttestClient → List ℕ → ℕ → List ℕ
script_of a redeem_script i = (decode_string (if i == 0 then redeem_script else a.script_topup)).0

module _ {Hash : Type 0} where
  -- Each input is unsigned, and has signatures enough, whose sizes CreateScriptSig can write.
  abbrev pub CanSign : ℕ → List (TxIn Hash) → List (List Sig) → Type 0
  CanSign n [] sigs = Unit {0}
  CanSign n (input ∷ rest) [] = ⊥
  CanSign n (input ∷ rest) (own ∷ others) =
      (input.signature_script ≡ []) × (n ≤ length own) × AllPlain own × CanSign n rest others

  -- The inputs, from the one with index i on, are as before but for their scripts, which hold
  -- the first signatures for the input and the script for it.
  abbrev pub HasSigs :
      AttestClient → List ℕ → ℕ → List (TxIn Hash) → List (List Sig) → List (TxIn Hash) → Type 0
  HasSigs a redeem_script i [] sigs [] = Unit {0}
  HasSigs a redeem_script i [] sigs (signed ∷ others) = ⊥
  HasSigs a redeem_script i (input ∷ rest) sigs [] = ⊥
  HasSigs a redeem_script i (input ∷ rest) [] (signed ∷ others) = ⊥
  HasSigs a redeem_script i (input ∷ rest) (own ∷ sigs) (signed ∷ others) =
      (signed ≡ record input { signature_script = signed.signature_script })
      × (parse_script_sig signed.signature_script
          ≡ some (take a.num_of_sigs own, script_of a redeem_script i))
      × HasSigs a redeem_script (i + 1) rest sigs others

  CanSign-length :
      (n : ℕ) (inputs : List (TxIn Hash)) (sigs : List (List Sig))
      → CanSign n inputs sigs
      → length inputs ≤ length sigs
  CanSign-length n [] sigs h = omega arith
  CanSign-length n (input ∷ rest) [] h = absurd h
  CanSign-length n (input ∷ rest) (own ∷ others) h = omega (arith, CanSign-length n rest others h.3)

  signed_input-eq :
      (a : AttestClient) (pre rest : List (List Sig)) (own : List Sig) (redeem_script : List ℕ)
      (n i : ℕ) (input : TxIn Hash)
      → i ≡ length pre
      → input.signature_script ≡ []
      → n ≤ length (pre ++ own ∷ rest)
      → a.num_of_sigs ≤ length own
      → signed_input a (pre ++ own ∷ rest) redeem_script n i input
        ≡ some (
            ok (record input {
              signature_script =
                  create_script_sig (take a.num_of_sigs own) (script_of a redeem_script i);
            }))
  unfolding signed_input parse_script_sig
  signed_input-eq a pre rest own redeem_script n i input e unsigned all enough =
      let given : ltb (length (pre ++ own ∷ rest)) n ≡ false = ground arith in
      let full : ltb (length own) a.num_of_sigs ≡ false = ground arith in
      let e' : i ≡ length pre + 0 = omega arith in
      let at : get_elem? (pre ++ own ∷ rest) i ≡ some own =
        rw e' (get_elem?-append_right pre (own ∷ rest) 0) in
      rw (unsigned, given, at, full) refl

  signed_inputs-HasSigs :
      (a : AttestClient) (redeem_script : List ℕ) (n : ℕ)
      → ((i : ℕ) → length (script_of a redeem_script i) < 256)
      → (inputs : List (TxIn Hash)) (pre sigs : List (List Sig)) (i : ℕ) → i ≡ length pre
      → n ≤ length pre + length inputs
      → CanSign a.num_of_sigs inputs sigs
      → (signed : List (TxIn Hash)) × (signed_inputs a (pre ++ sigs) redeem_script n i inputs
          ≡ some (ok signed))
        × HasSigs a redeem_script i inputs sigs signed
  unfolding signed_inputs
  signed_inputs-HasSigs a redeem n short [] pre sigs i e all h = ([], refl, tt)
  signed_inputs-HasSigs a redeem n short (input ∷ rest) pre [] i e all h = absurd h
  signed_inputs-HasSigs a redeem n short (input ∷ rest) pre (own ∷ sigs) i e all h =
      let size = length-append pre (own ∷ sigs) in
      let (others, done, later) =
        signed_inputs-HasSigs a redeem n short rest (pre ++ own ∷ []) sigs (i + 1)
          (omega (arith, length-append pre (own ∷ [])))
          (omega (arith, length-append pre (own ∷ []))) h.3 in
      let moved = append_assoc pre (own ∷ []) sigs in
      let first =
        signed_input-eq a pre sigs own redeem n i input e h.0
          (omega (arith, size, CanSign-length a.num_of_sigs rest sigs h.3)) h.1 in
      let script = create_script_sig (take a.num_of_sigs own) (script_of a redeem i) in
      (
        record input { signature_script = script } ∷ others,
        rw (first, rw moved at done) refl,
        (
          refl,
          parse_script_sig-create (take a.num_of_sigs own) (script_of a redeem i)
              (take-AllPlain a.num_of_sigs own h.2) (short i),
          later,
        ),
      )

  combine_sigs-HasSigs :
      (a : AttestClient) (tx : MsgTx Hash) (sigs : List (List Sig)) (redeem_script : List ℕ)
      → length redeem_script ≢ 0
      → length (decode_string redeem_script).0 < 256
      → length (decode_string a.script_topup).0 < 256
      → CanSign a.num_of_sigs tx.tx_in sigs
      → (signed : MsgTx Hash) × (combine_sigs a sigs (tx, redeem_script) ≡ some (ok signed))
        × (signed.tx_out ≡ tx.tx_out)
        × HasSigs a redeem_script 0 tx.tx_in sigs signed.tx_in
  unfolding combine_sigs
  combine_sigs-HasSigs a tx sigs redeem multisig short short_topup h =
      let (inputs, done, has) =
        signed_inputs-HasSigs a redeem (length tx.tx_in) (λ i. by_test (i == 0)) tx.tx_in [] sigs 0
          refl (omega arith) h in
      let given : (length redeem == 0) ≡ false = ground arith in
      (record tx { tx_in = inputs }, rw (given, done) refl, refl, has)
    where
      by_test :
          (first : Bool) → length (decode_string (if first then redeem else a.script_topup)).0 < 256
      by_test true = short
      by_test false = short_topup

-- A client that is no signer itself, given for every input as many signatures as the multisig
-- needs, all of sizes that CreateScriptSig can write, signs any unsigned transaction without an
-- error: the outputs and all but the scripts of the inputs are as before, and ParseScriptSig
-- reads from each input the first of its signatures, as many as are needed, and the redeem
-- script: that for the hash in the first input, the topup script in any other. Both scripts are
-- shorter than 256 bytes, and the redeem script is not empty.
pub sign_attestation-HasSigs :
    {Hash Key Pub Address : Type 0} ⦃c : Hashing Hash⦄ (w : Wire Hash)
    (t : KeyTools Key Pub Address) (k : KeyClient Key Pub)
    (get_raw_transaction : Hash → Result (MsgTx Hash))
    (sign_raw_transaction : MsgTx Hash → List Signing → Result (MsgTx Hash)) (tx : MsgTx Hash)
    (sigs : List (List Sig)) (hash : Hash) (redeem_script : List ℕ)
    → k.wallet_priv ≡ none
    → get_script_from_hash t k hash ≡ some (ok redeem_script)
    → length redeem_script ≢ 0
    → length (decode_string redeem_script).0 < 256
    → length (decode_string k.base.script_topup).0 < 256
    → CanSign k.base.num_of_sigs tx.tx_in sigs
    → (signed : MsgTx Hash) × (sign_attestation w t k get_raw_transaction sign_raw_transaction tx
          sigs hash
        ≡ some (ok signed))
      × (signed.tx_out ≡ tx.tx_out)
      × HasSigs k.base redeem_script 0 tx.tx_in sigs signed.tx_in
unfolding sign_attestation
sign_attestation-HasSigs w t k grt srt tx sigs hash redeem unowned script multisig short short_topup
      h =
    rw (script, unowned) (combine_sigs-HasSigs k.base tx sigs redeem multisig short short_topup h)
