-- ===== src/Service/Progress.antt =====
-- attestation/attestservice.go: the rounds from a signed attestation to the one that awaits its
-- confirmation.
use mainstay.Prelude.{◌≡◌, refl, true, false, some, none, [], ◌∷◌}
use mainstay.Hashing.{Hashing}
use mainstay.Wire.{Wire, ok, MsgTx}
use mainstay.Service.{
  AttestService, Replies, astate_sign_attestation, astate_await_confirmation,
  update_latest_attestation, send_attestation, atime_confirmation, atime_fixed, attempt,
  astate_pre_send_store, astate_send_attestation,
}
use mainstay.Service.Create.{
  last_commitment_for, signed_state, do_state_sign_attestation, do_state_pre_send_store,
  do_state_send_attestation,
}
use mainstay.Service.Run.{dispatch, do_attestation, rounds, round}

module _ {Hash : Type 0} ⦃c : Hashing Hash⦄ ⦃w : Wire Hash⦄ (r : Replies Hash) where
  -- A service on the main network with an attestation to sign, whose calls succeed, needs three
  -- rounds to sign it, to store it and to send it: it makes these two calls in this order with the
  -- signed transaction, does not panic, and awaits the confirmation of the id that the network
  -- gave, with the flag isFeeBumped down.
  pub rounds-send :
      (s : AttestService Hash) (latest last txid : Hash) (written signed : MsgTx Hash)
      → s.state ≡ astate_sign_attestation
      → s.is_regtest ≡ false
      → r.latest_hash true ≡ ok latest
      → last_commitment_for s latest ≡ some last
      → r.sign s.attestation.tx s.sigs last ≡ some (written, ok signed)
      → let att = record s.attestation { tx = signed; txid = w.tx_hash signed } in
        r.update_latest att ≡ none
        → r.send signed ≡ ok txid
        → (t : AttestService Hash) × (rounds (r ∷ r ∷ r ∷ []) s
            ≡ some (t, update_latest_attestation att ∷ send_attestation signed ∷ []))
          × (t.state ≡ astate_await_confirmation)
          × (t.attestation ≡ record att { txid = txid })
          × (t.is_fee_bumped ≡ false)
  unfolding rounds round do_attestation dispatch do_state_sign_attestation do_state_pre_send_store
      do_state_send_attestation signed_state last_commitment_for
  rounds-send s latest last txid written signed at main known spends signs stores sends =
      let att = record s.attestation { tx = signed; txid = w.tx_hash signed } in
      let s0 : AttestService Hash = record s { attest_delay = atime_fixed } in
      let s1 : AttestService Hash = record s0 {
        attestation = att;
        state = astate_pre_send_store;
      } in
      let s2 : AttestService Hash = record s1 { state = astate_send_attestation } in
      let t : AttestService Hash = record s2 {
        attestation = record att { txid = txid };
        state = astate_await_confirmation;
        attest_delay = atime_confirmation;
        confirm_time = r.now;
        is_fee_bumped = false;
      } in
      let first : round r s ≡ some (s1, []) =
        rw (at, known, spends, signs, main, round, do_attestation, dispatch, attempt) in
      let second : round r s1 ≡ some (s2, update_latest_attestation att ∷ []) = rw (stores, main) in
      let third : round r s2 ≡ some (t, send_attestation signed ∷ []) = rw (sends, main) in
      (t, rw (first, second, third), refl, refl, refl)
