-- ===== src/Service/Init.antt =====
-- attestation/attestservice.go: doStateError and doStateInit.
use mainstay.Prelude.{
  ℕ, zero, suc, ◌/◌, true, false, Option, none, some, List, [], ◌∷◌, ◌++◌, if◌then◌else◌, str_eq,
}
use mainstay.Prelude.Int.{ℤ, pos, negsuc, ◌-ℤ◌, ◌*ℤ◌, ltb_ℤ, wrap64}
use mainstay.Prelude.Panic.{◌>>=◌, maybe}
use mainstay.Hashing.{Hashing}
use mainstay.Wire.{Wire, ListUnspentResult, Result, ok, err}
use mainstay.Fees.{reset_fee, set_current_fee}
use mainstay.Merkle.Commitment.{Commitment, get_commitment_hash}
use mainstay.Attestation.{
  Attestation, new_attestation, new_attestation_default, commitment_hash, update_info,
}
use mainstay.Client.{AttestClient}
use mainstay.Service.{
  second, AttestService, Replies, Effect, Outcome, update_latest_attestation, send_confirmed_hash,
  import_attestation_addr, attempt, check, astate_init, astate_next_commitment,
  astate_await_confirmation,
}

unfoldable pub do_state_error : {Hash : Type 0} → AttestService Hash → AttestService Hash
do_state_error s = record s { state = astate_init }

-- Go's division of an `int` by a size; by 0 it panics.
unfoldable pub per_byte : ℤ → ℕ → Option ℤ
per_byte fee zero = none
per_byte (pos n) (suc size) = some (pos (n / suc size))
per_byte (negsuc n) (suc size) = let q = suc n / suc size in some (pos 0 -ℤ pos q)

-- A result whose error is ignored: on an error the pointer is nil.
abbrev ok_or_none : {A : Type 0} → Result A → Option A
ok_or_none (ok a) = some a
ok_or_none (err e) = none

-- `s.attester.Fees.ResetFee(s.isRegtest)`
unfoldable pub reset_client_fees :
    {Hash : Type 0} → Replies Hash → AttestService Hash → AttestService Hash
reset_client_fees r s =
    let fees = reset_fee r.fee_response (s.is_regtest ∷ []) s.attester.fees in
    record s { attester = record (s.attester) { fees = fees } }

-- `time.Unix(t, 0)`, in nanoseconds.
unfoldable pub unix : ℤ → ℤ
unix t = t *ℤ pos second

module _ {Hash : Type 0} ⦃c : Hashing Hash⦄ ⦃w : Wire Hash⦄ (r : Replies Hash) where
  -- The fee part at the end of stateInitUnconfirmed.
  unfoldable pub take_mempool_fee : ℤ → List (Effect Hash) → AttestService Hash → Outcome Hash
  unfolding per_byte
  take_mempool_fee fee fx s = per_byte fee (w.serialize_size s.attestation.tx) >>= λ fee_per_byte.
      let fees = set_current_fee fee_per_byte s.attester.fees in
      let client : AttestClient = record (s.attester) { fees = fees } in
      some (record s { attester = client; is_fee_bumped = false }, fx)

  unfoldable pub state_init_unconfirmed : Hash → AttestService Hash → Outcome Hash
  unfolding attempt take_mempool_fee unix
  state_init_unconfirmed txid s = attempt (r.attestation_commitment txid false) s [] λ commitment.
      r.raw_transaction txid >>= λ raw.
      let found : Attestation Hash = record (new_attestation txid commitment) { tx = raw } in
      let s1 : AttestService Hash = record s { attestation = found } in
      attempt (r.latest_hash true) s1 [] λ last.
        let fx = send_confirmed_hash (c.bytes last) ∷ [] in
        let s2 : AttestService Hash = record s1 { state = astate_await_confirmation } in
        attempt (r.mempool_entry (w.hash_string txid)) s2 fx
          λ entry. take_mempool_fee (entry.fee) fx (record s2 { confirm_time = unix entry.time })

  -- The end of stateInitUnspent: the signers get the hash, or zero for the base transaction.
  unfoldable pub tell_unspent : Hash → List (Effect Hash) → AttestService Hash → Outcome Hash
  tell_unspent txid fx s =
      let confirmed_hash =
        if str_eq s.attester.txid0 (w.hash_string txid)
        then c.zero_hash
        else commitment_hash s.attestation in
      some (
        record s { state = astate_next_commitment },
        fx ++ send_confirmed_hash (c.bytes confirmed_hash) ∷ [],
      )

  -- `if atimeNewAttestation > lastDelay`
  unfoldable pub delay_after : ℤ → AttestService Hash → AttestService Hash
  delay_after last_delay s = record s {
    attest_delay =
        if ltb_ℤ last_delay s.atime_new_attestation
        then wrap64 (s.atime_new_attestation -ℤ last_delay)
        else s.attest_delay;
  }

  -- The branch of stateInitUnspent for a confirmed attestation.
  unfoldable pub found_confirmed : Hash → Commitment Hash → AttestService Hash → Outcome Hash
  unfolding check tell_unspent delay_after unix
  found_confirmed txid commitment s = r.raw_transaction txid >>= λ raw.
      ok_or_none (r.wallet_transaction txid) >>= λ wallet.
      let found : Attestation Hash = record (new_attestation txid commitment) {
        confirmed = true;
        tx = raw;
      } in
      let updated = update_info wallet found in
      let s1 : AttestService Hash = record s { attestation = updated } in
      let fx = update_latest_attestation updated ∷ [] in
      let s2 = delay_after (r.since 0 (unix updated.info.time)) (reset_client_fees r s1) in
      check (r.update_latest updated) s1 fx (tell_unspent txid fx s2)

  unfoldable pub state_init_unspent : ListUnspentResult → AttestService Hash → Outcome Hash
  unfolding attempt found_confirmed tell_unspent
  state_init_unspent unspent s = w.hash_of_string unspent.tx_id >>= λ txid.
      attempt (r.attestation_commitment txid true) s [] λ commitment.
        if c.beq (get_commitment_hash commitment) c.zero_hash
        then tell_unspent txid [] (record s { attestation = new_attestation_default })
        else found_confirmed txid commitment s

  -- `GetNextAttestationAddr(nil, hash)`, then its import, the n-th of the step.
  unfoldable pub import_next :
      ℕ
      → Hash
      → AttestService Hash
      → List (Effect Hash)
      → (List (Effect Hash) → Outcome Hash)
      → Outcome Hash
  unfolding attempt check
  import_next n hash s fx next = attempt (r.next_addr n none hash) s fx λ paytoaddr.
      let fx' = fx ++ import_attestation_addr paytoaddr true ∷ [] in
      check (r.import_addr n paytoaddr true) s fx' (next fx')

  unfoldable pub state_init_wallet_failure : AttestService Hash → Outcome Hash
  unfolding attempt import_next
  state_init_wallet_failure s = attempt (r.latest_hash true) s [] λ confirmed_hash.
      import_next 0 confirmed_hash s [] λ fx1.
        attempt (r.latest_hash false) s fx1 λ unconfirmed_hash.
          import_next 1 unconfirmed_hash s fx1 λ fx2.
            import_next 2 c.zero_hash s fx2 λ fx3. some (record s { state = astate_init }, fx3)

  unfoldable pub do_state_init : AttestService Hash → Outcome Hash
  unfolding attempt state_init_unconfirmed state_init_unspent state_init_wallet_failure
  do_state_init s = r.unconfirmed_tx >>= λ unconfirmed. attempt unconfirmed s [] λ found.
      maybe found
        (r.last_unspent >>= λ last. attempt last s [] λ success.
          maybe success (state_init_wallet_failure s) λ unspent. state_init_unspent unspent s)
        λ txid. state_init_unconfirmed txid s
