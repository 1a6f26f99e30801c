-- ===== src/Client/Tx.antt =====
-- attestation/attestclient.go: the attestation transaction and its fee.
use mainstay.Prelude.{
  ℕ, ◌+◌, ◌-◌, ◌*◌, ◌/◌, Bool, Option, none, some, List, [], ◌∷◌, map, String, if◌then◌else◌,
  length, ltb,
}
use mainstay.Prelude.Int.{ℤ, pos, ◌+ℤ◌, ◌-ℤ◌, ◌*ℤ◌, ltb_ℤ, wrap64}
use mainstay.Prelude.Panic.{◌>>=◌}
use mainstay.Wire.{Wire, MsgTx, TxIn, ListUnspentResult, Result, ok, err}
use mainstay.Fees.{AttestFees, get_fee, get_prev_fee, bump_fee}
use mainstay.Client.{AttestClient}

abbrev pub error_insufficient_funds : String
error_insufficient_funds = "Insufficient unspent vout value (under the 5*maxFee target)"

-- The first argument is the library's VarIntSerializeSize, which is positive. Sizes are not
-- negative and far from the limits of an `int`.
unfoldable pub calc_signed_tx_size : (ℕ → ℕ) → ℕ → ℕ → ℕ → ℕ → ℕ
calc_signed_tx_size var_int_size unsigned_tx_size script_size num_of_sigs num_of_inputs =
    let push_data_size = if ltb 75 script_size then 1 else 0 in
    let script_sig_size = 1 + push_data_size + script_size + 1 + num_of_sigs * (1 + 72) in
    let script_sig_size_size = var_int_size script_sig_size - 1 in
    unsigned_tx_size + (script_sig_size + script_sig_size_size) * num_of_inputs

unfoldable pub calc_signed_tx_fee : (ℕ → ℕ) → ℤ → ℕ → ℕ → ℕ → ℕ → ℤ
unfolding calc_signed_tx_size
calc_signed_tx_fee var_int_size fee_per_byte unsigned_tx_size script_size num_of_sigs
      num_of_inputs =
    wrap64 (
      fee_per_byte
      *ℤ pos
          (calc_signed_tx_size var_int_size unsigned_tx_size script_size num_of_sigs num_of_inputs))

module _ {Hash : Type 0} ⦃w : Wire Hash⦄ where
  -- The fee of the transaction `tx` with n inputs, from the fee per byte.
  unfoldable pub tx_fee : AttestClient → ℤ → MsgTx Hash → ℕ → ℤ
  unfolding calc_signed_tx_fee
  tx_fee a fee_per_byte tx n =
      calc_signed_tx_fee w.var_int_size fee_per_byte (w.serialize_size tx) (length a.script0 / 2)
        a.num_of_sigs n

-- `math.Pow(2, 32)` less 3, as a `uint32`.
abbrev pub replace_by_fee : ℕ
replace_by_fee = 4294967293

-- `amounts[paytoaddr] += ...`
unfoldable pub total_amount : List ListUnspentResult → ℤ → ℤ
total_amount [] amount = amount
total_amount (u ∷ us) amount = total_amount us (wrap64 (amount +ℤ u.amount))

module _ {Hash : Type 0} where
  -- `msgTx.TxIn[0].Sequence = ...`, out of range without an input.
  unfoldable pub set_replace_by_fee : MsgTx Hash → Option (MsgTx Hash)
  set_replace_by_fee tx = elim tx.tx_in [
    | [] ↦ none
    | i ∷ is ↦ some (record tx { tx_in = record i { sequence = replace_by_fee } ∷ is })
  ]

  -- `msgTx.TxOut[0].Value`
  unfoldable pub first_value : MsgTx Hash → Option ℤ
  first_value tx = elim tx.tx_out [ [] ↦ none | out ∷ outs ↦ some (out.value) ]

  -- `msgTx.TxOut[0].Value -= fee`
  unfoldable pub pay_fee : ℤ → MsgTx Hash → Option (MsgTx Hash)
  pay_fee fee tx = elim tx.tx_out [
    | [] ↦ none
    | out ∷ outs ↦
        some (record tx { tx_out = record out { value = wrap64 (out.value -ℤ fee) } ∷ outs })
  ]

  abbrev without_script : TxIn Hash → TxIn Hash
  without_script i = record i { signature_script = [] }

  -- `msgTx.TxIn[i].SignatureScript = []byte{}` for each input.
  unfoldable pub remove_sigs : MsgTx Hash → MsgTx Hash
  remove_sigs tx = record tx { tx_in = map without_script tx.tx_in }

-- The part of bumpAttestationFees that changes the fees: the fee before, and the new fees.
unfoldable pub bumped_fees : Bool → AttestFees → ℤ × AttestFees
bumped_fees is_fee_bumped fees =
    if is_fee_bumped then (get_prev_fee fees, fees) else (get_fee fees, bump_fee fees)

module _ {Hash : Type 0} ⦃w : Wire Hash⦄ where
  -- What follows CreateRawTransaction, n the number of inputs; the warning is left out.
  unfoldable pub finish_attestation : AttestClient → ℕ → MsgTx Hash → Option (Result (MsgTx Hash))
  unfolding tx_fee set_replace_by_fee first_value pay_fee
  finish_attestation a n created = set_replace_by_fee created >>= λ tx. first_value tx >>= λ value.
      let max_fee = tx_fee a a.fees.max_fee tx n in
      if ltb_ℤ value (wrap64 (pos 5 *ℤ max_fee))
      then some (err error_insufficient_funds)
      else (pay_fee (tx_fee a (get_fee a.fees) tx n) tx >>= λ paid. some (ok paid))

  -- `create_raw_transaction` is the RPC call: the inputs, the address and the amount it is paid.
  unfoldable pub create_attestation :
      (List (String × ℕ) → String → ℤ → Result (MsgTx Hash))
      → String
      → List ListUnspentResult
      → AttestClient
      → Option (Result (MsgTx Hash))
  unfolding total_amount finish_attestation
  create_attestation create_raw_transaction paytoaddr unspent a =
      let inputs = map (λ u. (u.tx_id, u.vout)) unspent in
      elim (create_raw_transaction inputs paytoaddr (total_amount unspent (pos 0))) [
        | err e ↦ some (err e)
        | ok tx ↦ finish_attestation a (length inputs) tx
      ]

  -- The error it returns is always nil; it changes the fees of the client and the transaction.
  unfoldable pub bump_attestation_fees :
      MsgTx Hash → Bool → AttestClient → Option (AttestClient × MsgTx Hash)
  unfolding tx_fee remove_sigs bumped_fees pay_fee
  bump_attestation_fees msg_tx is_fee_bumped a =
      let tx = remove_sigs msg_tx in
      let changed = bumped_fees is_fee_bumped a.fees in
      let fee_per_byte_increment = wrap64 (get_fee changed.1 -ℤ changed.0) in
      pay_fee (tx_fee a fee_per_byte_increment tx (length tx.tx_in)) tx >>= λ paid.
      some (record a { fees = changed.1 }, paid)
