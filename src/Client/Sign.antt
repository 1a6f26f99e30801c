-- ===== src/Client/Sign.antt =====
-- attestation/attestclient.go: getTransactionPreImages, SignTransaction, signAttestation and
-- sendAttestation.
use mainstay.Prelude.{
  ℕ, zero, suc, ◌+◌, ◌-◌, Bool, true, false, ◌&&◌, Option, some, List, [], ◌∷◌, ◌++◌, String, ◌==◌,
  if◌then◌else◌, length, get_elem?, take, ltb,
}
use mainstay.Prelude.Panic.{◌>>=◌, maybe}
use mainstay.Hashing.{Hashing}
use mainstay.Hex.{decode_string, encode_to_string}
use mainstay.Wire.{Wire, MsgTx, TxIn, Result, ok, err, ◌or_return◌}
use mainstay.Script.{Sig, parse_script_sig, create_script_sig}
use mainstay.Tweak.{Wif}
use mainstay.Client.{AttestClient}
use mainstay.Client.Keys.{KeyClient, KeyTools, get_key_from_hash, get_script_from_hash}

abbrev pub error_input_missing_for_tx : String
error_input_missing_for_tx = "Missing input for transaction"

abbrev pub error_sigs_missing_for_tx : String
error_sigs_missing_for_tx = "Missing signatures for transaction"

abbrev pub error_sigs_missing_for_vin : String
error_sigs_missing_for_vin = "Missing signatures for transaction input"

-- An input of `SignRawTransaction3`.
pub record RawTxInput : Type 0 where
  pub txid : String
  pub vout : ℕ
  pub script_pub_key : List ℕ
  pub redeem_script : List ℕ

abbrev pub error_failed_decoding_init_multisig : String
error_failed_decoding_init_multisig = "Could not decode multisig init script"

-- A key that signs, and its input.
abbrev pub Signing : Type 0
Signing = RawTxInput × Wif

module _ {Hash : Type 0} where
  -- `TxIn[i].SignatureScript = script`
  unfoldable pub with_script : ℕ → List ℕ → List (TxIn Hash) → List (TxIn Hash)
  with_script i script [] = []
  with_script zero script (input ∷ rest) = record input { signature_script = script } ∷ rest
  with_script (suc i) script (input ∷ rest) = input ∷ with_script i script rest

  -- A copy of the transaction with a script in one input.
  abbrev pub pre_image : MsgTx Hash → ℕ → List ℕ → MsgTx Hash
  pre_image tx i script = record tx { tx_in = with_script i script tx.tx_in }

  -- The rounds that are left of the loop over the further inputs.
  unfoldable pub topup_images : MsgTx Hash → List ℕ → ℕ → ℕ → List (MsgTx Hash)
  unfolding with_script
  topup_images tx script zero i = []
  topup_images tx script (suc rounds) i =
      pre_image tx i script ∷ topup_images tx script rounds (i + 1)

  abbrev images_behind : MsgTx Hash → List ℕ × Bool → List (MsgTx Hash)
  images_behind tx (topup_script_ser, false) = []
  images_behind tx (topup_script_ser, true) =
      topup_images tx topup_script_ser (length tx.tx_in - 1) 1

  -- The script itself is left out of the text of the error.
  abbrev images_with : AttestClient → MsgTx Hash → List ℕ × Bool → Result (List (MsgTx Hash))
  images_with a tx (script_ser, false) = err error_failed_decoding_init_multisig
  images_with a tx (script_ser, true) = ok (
      pre_image tx 0 script_ser
      ∷ (if ltb 1 (length tx.tx_in) then images_behind tx (decode_string a.script_topup) else []))

  -- The signatures of one input: `n` inputs, of which this has index i.
  unfoldable pub signed_input :
      AttestClient → List (List Sig) → List ℕ → ℕ → ℕ → TxIn Hash → Option (Result (TxIn Hash))
  signed_input a sigs redeem_script n i input =
      parse_script_sig input.signature_script >>= λ (my_sigs, script).
      if ltb 0 (length my_sigs) && ltb 0 (length script)
      then (let all = my_sigs ++ maybe (get_elem? sigs i) [] (λ own. own) in
          if ltb (length all) a.num_of_sigs
          then some (err error_sigs_missing_for_vin)
          else some (
              ok (record input {
                signature_script = create_script_sig (take a.num_of_sigs all) script;
              })))
      else if ltb (length sigs) n
      then some (err error_sigs_missing_for_tx)
      else (get_elem? sigs i >>= λ own.
          if ltb (length own) a.num_of_sigs
          then some (err error_sigs_missing_for_vin)
          else some (
              ok (record input {
                signature_script =
                    create_script_sig (take a.num_of_sigs own)
                      (decode_string (if i == 0 then redeem_script else a.script_topup)).0;
              })))

  unfoldable pub signed_inputs :
      AttestClient
      → List (List Sig)
      → List ℕ
      → ℕ
      → ℕ
      → List (TxIn Hash)
      → Option (Result (List (TxIn Hash)))
  unfolding signed_input
  signed_inputs a sigs redeem_script n i [] = some (ok [])
  signed_inputs a sigs redeem_script n i (input ∷ rest) =
      signed_input a sigs redeem_script n i input or_return λ signed.
      signed_inputs a sigs redeem_script n (i + 1) rest or_return λ others.
      some (ok (signed ∷ others))

  -- The part behind the client's own signature. That the pointer of the transaction is kept, and
  -- so the inputs before an error stay signed, is left out.
  unfoldable pub combine_sigs :
      AttestClient → List (List Sig) → MsgTx Hash × List ℕ → Option (Result (MsgTx Hash))
  unfolding signed_inputs
  combine_sigs a sigs (tx, redeem_script) =
      if length redeem_script == 0
      then some (ok tx)
      else (signed_inputs a sigs redeem_script (length tx.tx_in) 0 tx.tx_in or_return λ inputs.
          some (ok (record tx { tx_in = inputs })))

module _ {Hash Key Pub Address : Type 0} ⦃c : Hashing Hash⦄ (w : Wire Hash)
    (t : KeyTools Key Pub Address) where
  unfoldable pub get_transaction_pre_images :
      KeyClient Key Pub → Hash → MsgTx Hash → Option (Result (List (MsgTx Hash)))
  unfolding topup_images get_script_from_hash
  get_transaction_pre_images k hash tx =
      if length tx.tx_in == 0
      then some (err error_input_missing_for_tx)
      else (get_script_from_hash t k hash or_return λ script.
          some (images_with k.base tx (decode_string script)))

  -- What GetRawTransaction answers for an input, as an input of the signing call. `none` is a
  -- panic: the transaction has no output.
  unfoldable pub raw_input :
      (Hash → Result (MsgTx Hash)) → Hash → List ℕ → Option (Result RawTxInput)
  raw_input get_raw_transaction prev redeem_script =
      some (get_raw_transaction prev) or_return λ prev_tx. get_elem? prev_tx.tx_out 0 >>= λ out.
      some (
        ok (record {
          txid = w.hash_string prev;
          vout = 0;
          script_pub_key = encode_to_string out.pk_script;
          redeem_script = redeem_script;
        }))

  -- The loop over the further inputs: `none` also if there is no key for them.
  unfoldable pub topup_signings :
      KeyClient Key Pub
      → (Hash → Result (MsgTx Hash))
      → List (TxIn Hash)
      → Option (Result (List Signing))
  unfolding raw_input
  topup_signings k get_raw_transaction [] = some (ok [])
  topup_signings k get_raw_transaction (input ∷ rest) =
      raw_input get_raw_transaction input.previous_hash k.base.script_topup or_return λ raw.
      k.wallet_priv_topup >>= λ key.
      topup_signings k get_raw_transaction rest or_return λ others. some (ok ((raw, key) ∷ others))

  -- `sign_raw_transaction` is SignRawTransaction3.
  unfoldable pub sign_transaction :
      KeyClient Key Pub
      → (Hash → Result (MsgTx Hash))
      → (MsgTx Hash → List Signing → Result (MsgTx Hash))
      → Hash
      → MsgTx Hash
      → Option (Result (MsgTx Hash × List ℕ))
  unfolding topup_signings get_key_from_hash get_script_from_hash
  sign_transaction k get_raw_transaction sign_raw_transaction hash tx =
      get_key_from_hash t k hash >>= λ key. get_script_from_hash t k hash or_return λ redeem_script.
      with_inputs key redeem_script tx.tx_in
    where
      with_inputs : Wif → List ℕ → List (TxIn Hash) → Option (Result (MsgTx Hash × List ℕ))
      with_inputs key redeem_script [] = some (err error_input_missing_for_tx)
      with_inputs key redeem_script (input ∷ rest) =
          raw_input get_raw_transaction input.previous_hash redeem_script or_return λ raw.
          topup_signings k get_raw_transaction rest or_return λ others.
          some (sign_raw_transaction tx ((raw, key) ∷ others)) or_return λ signed.
          some (ok (signed, redeem_script))

  unfoldable pub sign_attestation :
      KeyClient Key Pub
      → (Hash → Result (MsgTx Hash))
      → (MsgTx Hash → List Signing → Result (MsgTx Hash))
      → MsgTx Hash
      → List (List Sig)
      → Hash
      → Option (Result (MsgTx Hash))
  unfolding combine_sigs sign_transaction get_script_from_hash
  sign_attestation k get_raw_transaction sign_raw_transaction tx sigs hash =
      get_script_from_hash t k hash or_return λ redeem_script.
      maybe k.wallet_priv (some (ok (tx, redeem_script)))
        (λ _. sign_transaction k get_raw_transaction sign_raw_transaction hash tx)
      or_return combine_sigs k.base sigs

  -- SendRawTransaction answers with a hash, of which the zero one stands beside an error.
  unfoldable pub send_attestation :
      (MsgTx Hash → Result Hash) → MsgTx Hash → Hash × Result (Unit {0})
  send_attestation send_raw_transaction tx = sent (send_raw_transaction tx)
    where
      sent : Result Hash → Hash × Result (Unit {0})
      sent (err e) = (c.zero_hash, err e)
      sent (ok txhash) = (txhash, ok tt)
