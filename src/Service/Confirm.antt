-- ===== src/Service/Confirm.antt =====
-- attestation/attestservice.go: waiting for the confirmation, and what happens when none comes.
use mainstay.Prelude.{true, not, some, [], ◌∷◌, ◌++◌, if◌then◌else◌, str_eq}
use mainstay.Prelude.Int.{◌-ℤ◌, ltb_ℤ, wrap64}
use mainstay.Prelude.Panic.{◌>>=◌}
use mainstay.Hashing.{Hashing}
use mainstay.Wire.{Wire, GetTransactionResult}
use mainstay.Attestation.{Attestation, commitment_hash, update_info}
use mainstay.Client.Tx.{bump_attestation_fees}
use mainstay.Service.{
  AttestService, Replies, Outcome, update_latest_attestation, send_confirmed_hash, attempt, check,
  astate_next_commitment, astate_handle_unconfirmed, atime_sigs, atime_confirmation,
}
use mainstay.Service.Init.{reset_client_fees}
use mainstay.Service.Create.{last_commitment_for, publish}

module _ {Hash : Type 0} ⦃c : Hashing Hash⦄ ⦃w : Wire Hash⦄ (r : Replies Hash) where
  -- The branch of doStateAwaitConfirmation for a transaction in a block.
  unfoldable pub confirmed : GetTransactionResult → AttestService Hash → Outcome Hash
  unfolding check
  confirmed new_tx s =
      let att : Attestation Hash = record (s.attestation) { confirmed = true } in
      let updated = update_info new_tx att in
      let s1 : AttestService Hash = record s { attestation = updated } in
      let fx = update_latest_attestation updated ∷ [] in
      let s2 = reset_client_fees r s1 in
      let confirmed_hash =
        if str_eq s.attester.txid0 (w.hash_string updated.txid)
        then c.zero_hash
        else commitment_hash updated in
      let delay =
        wrap64 (wrap64 (s.atime_new_attestation -ℤ r.since 1 s.confirm_time) -ℤ atime_sigs) in
      check (r.update_latest updated) s1 fx (
        some (
          record s2 { state = astate_next_commitment; attest_delay = delay },
          fx ++ send_confirmed_hash (c.bytes confirmed_hash) ∷ [],
        ))

  unfoldable pub do_state_await_confirmation : AttestService Hash → Outcome Hash
  unfolding attempt confirmed
  do_state_await_confirmation s =
      if ltb_ℤ s.atime_handle_unconfirmed (r.since 0 s.confirm_time)
      then some (record s { state = astate_handle_unconfirmed }, [])
      else attempt (r.wallet_transaction s.attestation.txid) s [] λ new_tx.
        if not (str_eq (new_tx.block_hash) "")
        then confirmed new_tx s
        else some (record s { attest_delay = atime_confirmation }, [])

  -- The error of bumpAttestationFees is always nil, so that its check is left out.
  unfoldable pub do_state_handle_unconfirmed : AttestService Hash → Outcome Hash
  unfolding attempt last_commitment_for publish
  do_state_handle_unconfirmed s =
      bump_attestation_fees s.attestation.tx s.is_fee_bumped s.attester >>= λ (client, tx).
      let att : Attestation Hash = record (s.attestation) { tx = tx } in
      let s1 : AttestService Hash = record s {
        attester = client;
        attestation = att;
        is_fee_bumped = true;
      } in
      attempt (r.latest_hash true) s1 []
        λ latest. last_commitment_for s1 latest >>= λ last. publish r last [] s1
