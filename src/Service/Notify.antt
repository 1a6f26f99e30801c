-- ===== src/Service/Notify.antt =====
-- What a step tells the signers, and asks of them.
use mainstay.Prelude.{
  ◌≡◌, ◌≢◌, refl, true, false, not, String, none, some, List, [], ◌∷◌, if◌then◌else◌, str_eq,
  Bool-cases, Option-cases, inl, inr,
}
use mainstay.Prelude.Int.{ltb_ℤ}
use mainstay.Hashing.{Hashing}
use mainstay.Fees.{reset_fee}
use mainstay.Wire.{Wire, Result, ok, err, GetTransactionResult}
use mainstay.Service.{
  AttestationState, astate_error, astate_init, astate_next_commitment, astate_new_attestation,
  astate_sign_attestation, astate_pre_send_store, astate_send_attestation,
  astate_await_confirmation, astate_handle_unconfirmed, AttestService, Replies, Effect, set_failure,
  update_latest_attestation, send_confirmed_hash, ask_sigs, attempt, check, atime_confirmation,
}
use mainstay.Service.Init.{do_state_error, do_state_init}
use mainstay.Service.Create.{
  do_state_next_commitment, do_state_new_attestation, do_state_sign_attestation, signed_state,
  do_state_pre_send_store, do_state_send_attestation,
}
use mainstay.Service.Confirm.{confirmed, do_state_await_confirmation, do_state_handle_unconfirmed}
use mainstay.Service.Run.{dispatch, do_attestation}
use mainstay.Service.Hoare.{After, after}
use mainstay.Attestation.{commitment_hash, update_info}
use mainstay.Service.Init.{reset_client_fees}

-- No signatures are asked for.
abbrev pub NotAsked : {Hash : Type 0} → List (Effect Hash) → Type 0
NotAsked [] = Unit {0}
NotAsked (ask_sigs tx_hash redeem_script merkle_root ∷ es) = ⊥
NotAsked (_ ∷ es) = NotAsked es

-- The outcomes of a round that awaits the confirmation of the attestation of s, by what it is
-- answered.
pub data Awaited {Hash : Type 0} ⦃c : Hashing Hash⦄ ⦃w : Wire Hash⦄ (r : Replies Hash)
    (s : AttestService Hash) : AttestService Hash → List (Effect Hash) → Type 0 where
  timed_out :
      (t : AttestService Hash)
      → ltb_ℤ s.atime_handle_unconfirmed (r.since 0 s.confirm_time) ≡ true
      → t.state ≡ astate_handle_unconfirmed
      → t.attestation ≡ s.attestation
      → Awaited r s t []
  failed :
      (t : AttestService Hash) (e : String)
      → ltb_ℤ s.atime_handle_unconfirmed (r.since 0 s.confirm_time) ≡ false
      → r.wallet_transaction s.attestation.txid ≡ err e
      → t.state ≡ astate_error
      → t.error_state ≡ some e
      → t.attestation ≡ s.attestation
      → Awaited r s t []
  not_in_block :
      (t : AttestService Hash) (new_tx : GetTransactionResult)
      → ltb_ℤ s.atime_handle_unconfirmed (r.since 0 s.confirm_time) ≡ false
      → r.wallet_transaction s.attestation.txid ≡ ok new_tx
      → str_eq new_tx.block_hash "" ≡ true
      → t.state ≡ s.state
      → t.attestation ≡ s.attestation
      → Awaited r s t []
  not_stored :
      (t : AttestService Hash) (new_tx : GetTransactionResult) (e : String)
      → ltb_ℤ s.atime_handle_unconfirmed (r.since 0 s.confirm_time) ≡ false
      → r.wallet_transaction s.attestation.txid ≡ ok new_tx
      → str_eq new_tx.block_hash "" ≡ false
      → r.update_latest t.attestation ≡ some e
      → t.attestation.confirmed ≡ true
      → t.attestation.commitment ≡ s.attestation.commitment
      → t.state ≡ astate_error
      → t.error_state ≡ some e
      → Awaited r s t (update_latest_attestation t.attestation ∷ [])
  told :
      (t : AttestService Hash) (new_tx : GetTransactionResult)
      → ltb_ℤ s.atime_handle_unconfirmed (r.since 0 s.confirm_time) ≡ false
      → r.wallet_transaction s.attestation.txid ≡ ok new_tx
      → str_eq new_tx.block_hash "" ≡ false
      → r.update_latest t.attestation ≡ none
      → t.attestation.confirmed ≡ true
      → t.attestation.commitment ≡ s.attestation.commitment
      → t.state ≡ astate_next_commitment
      → t.attester.fees ≡ reset_fee r.fee_response (s.is_regtest ∷ []) s.attester.fees
      → Awaited r s t (
          update_latest_attestation t.attestation
          ∷ send_confirmed_hash (
              c.bytes (
                if str_eq s.attester.txid0 (w.hash_string s.attestation.txid)
                then c.zero_hash
                else commitment_hash s.attestation))
          ∷ [])

module _ {Hash : Type 0} ⦃c : Hashing Hash⦄ ⦃w : Wire Hash⦄ (r : Replies Hash) where
  dispatch-keeps_sigs :
      (from : AttestationState) (s : AttestService Hash)
      → from ≢ astate_new_attestation
      → After (λ t fx. (t.sigs ≡ s.sigs) × NotAsked fx) (dispatch r from s)
  unfolding dispatch do_state_error do_state_init do_state_next_commitment do_state_new_attestation
      do_state_sign_attestation signed_state do_state_pre_send_store do_state_send_attestation
      do_state_await_confirmation do_state_handle_unconfirmed set_failure reset_client_fees
  dispatch-keeps_sigs astate_error s other = search (after) depth 60 fits 5000
  dispatch-keeps_sigs astate_init s other = search (after) depth 60 fits 5000
  dispatch-keeps_sigs astate_next_commitment s other = search (after) depth 60 fits 5000
  dispatch-keeps_sigs astate_new_attestation s other = absurd (other refl)
  dispatch-keeps_sigs astate_sign_attestation s other = search (after) depth 60 fits 5000
  dispatch-keeps_sigs astate_pre_send_store s other = search (after) depth 60 fits 5000
  dispatch-keeps_sigs astate_send_attestation s other = search (after) depth 60 fits 5000
  dispatch-keeps_sigs astate_await_confirmation s other = search (after) depth 60 fits 5000
  dispatch-keeps_sigs astate_handle_unconfirmed s other = search (after) depth 60 fits 5000

  -- A step in any other state than that of a new attestation, above all one that bumps the fee
  -- and so changes the transaction, asks for no signatures and keeps those that it had.
  pub do_attestation-keeps_sigs :
      (s : AttestService Hash)
      → s.state ≢ astate_new_attestation
      → After (λ t fx. (t.sigs ≡ s.sigs) × NotAsked fx) (do_attestation r s)
  unfolding do_attestation
  do_attestation-keeps_sigs s other = dispatch-keeps_sigs s.state _ other

  -- What follows the answer that the transaction is in a block.
  confirmed-Awaited :
      (s : AttestService Hash) (new_tx : GetTransactionResult)
      → ltb_ℤ s.atime_handle_unconfirmed (r.since 0 s.confirm_time) ≡ false
      → r.wallet_transaction s.attestation.txid ≡ ok new_tx
      → str_eq new_tx.block_hash "" ≡ false
      → After (Awaited r s) (confirmed r new_tx s)
  unfolding confirmed check set_failure reset_client_fees update_info commitment_hash
  confirmed-Awaited s new_tx early found inside =
      elim (Option-cases
        (r.update_latest (update_info new_tx (record (s.attestation) { confirmed = true })))) [
          | inl done ↦ rw done (told _ new_tx early found inside done refl refl refl refl)
          | inr (e, broken) ↦
              rw broken (not_stored _ new_tx e early found inside broken refl refl refl refl)
        ]

  -- A step that awaits the confirmation ends in exactly the way that its answers decide. Too long
  -- after the sending the transaction is handled as unconfirmed; an error of the wallet is
  -- reported; while the transaction is in no block the service waits on: each keeps the
  -- attestation and calls nothing. In a block, the attestation is confirmed with the commitment it
  -- had, and stored: an error of the update is reported, and the signers are told nothing; only
  -- without one are they told the hash of that commitment, zero for the base transaction, the fees
  -- are reset, and the next commitment follows.
  pub do_state_await_confirmation-Awaited :
      (s : AttestService Hash) → After (Awaited r s) (do_state_await_confirmation r s)
  unfolding do_state_await_confirmation attempt set_failure
  do_state_await_confirmation-Awaited s =
      elim (Bool-cases (ltb_ℤ s.atime_handle_unconfirmed (r.since 0 s.confirm_time))) [
        | inl late ↦ rw late (timed_out _ late refl refl)
        | inr early ↦ rw early (answered early (r.wallet_transaction s.attestation.txid) refl)
      ]
    where
      in_block :
          ltb_ℤ s.atime_handle_unconfirmed (r.since 0 s.confirm_time) ≡ false
          → (new_tx : GetTransactionResult) → r.wallet_transaction s.attestation.txid ≡ ok new_tx
          → After (Awaited r s) (
              if not (str_eq new_tx.block_hash "")
              then confirmed r new_tx s
              else some (record s { attest_delay = atime_confirmation }, []))
      in_block early new_tx found = elim (Bool-cases (str_eq new_tx.block_hash "")) [
        | inl outside ↦ rw outside (not_in_block _ new_tx early found outside refl refl)
        | inr inside ↦ rw inside (confirmed-Awaited s new_tx early found inside)
      ]

      answered :
          ltb_ℤ s.atime_handle_unconfirmed (r.since 0 s.confirm_time) ≡ false
          → (a : Result GetTransactionResult) → r.wallet_transaction s.attestation.txid ≡ a
          → After (Awaited r s) (
              attempt a s [] λ new_tx.
                if not (str_eq new_tx.block_hash "")
                then confirmed r new_tx s
                else some (record s { attest_delay = atime_confirmation }, []))
      answered early (err e) found = failed _ e early found refl refl refl
      answered early (ok new_tx) found = in_block early new_tx found
