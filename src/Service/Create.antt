-- ===== src/Service/Create.antt =====
-- attestation/attestservice.go: from the next commitment to the attestation that is sent.
use mainstay.Prelude.{
  ℕ, true, false, String, Option, none, some, List, [], ◌∷◌, ◌++◌, map, ◌==◌, if◌then◌else◌, str_eq,
  get_elem?,
}
use mainstay.Prelude.Panic.{◌>>=◌, maybe}
use mainstay.Hashing.{Hashing}
use mainstay.Wire.{Wire, MsgTx, ListUnspentResult, Result, ok, err}
use mainstay.Merkle.Commitment.{get_commitment_hash}
use mainstay.Attestation.{Attestation, new_attestation_default, commitment_hash, set_commitment}
use mainstay.Client.Tx.{create_attestation}
use mainstay.Service.{
  AttestService, Replies, Effect, Outcome, update_latest_attestation, ask_sigs,
  import_attestation_addr, re_subscribe, send_tx_pre_images, send_attestation, set_failure, attempt,
  check, astate_new_attestation, astate_sign_attestation, astate_pre_send_store,
  astate_send_attestation, astate_await_confirmation, atime_sigs, atime_skip, atime_confirmation,
  erro_unspent_not_found,
}

-- `strings.Split(asm, " ")`, its last element: what follows the last space.
unfoldable pub last_word : List ℕ → List ℕ → List ℕ
last_word word [] = word
last_word word (b ∷ bs) = if b == 32 then last_word [] bs else last_word (word ++ b ∷ []) bs

-- The first `PreviousOutPoint.Hash`, a panic if there is no input.
unfoldable pub first_previous : {Hash : Type 0} → MsgTx Hash → Option Hash
first_previous tx = elim tx.tx_in [ [] ↦ none | i ∷ is ↦ some (i.previous_hash) ]

module _ {Hash : Type 0} ⦃c : Hashing Hash⦄ ⦃w : Wire Hash⦄ where
  -- The last commitment, with zero in its place when spending from the base transaction.
  unfoldable pub last_commitment_for : AttestService Hash → Hash → Option Hash
  unfolding first_previous
  last_commitment_for s last = first_previous s.attestation.tx >>= λ previous.
      some (if str_eq s.attester.txid0 (w.hash_string previous) then c.zero_hash else last)

module _ {Hash : Type 0} ⦃w : Wire Hash⦄ where
  -- What follows signAttestation: the signers are subscribed again after a failure.
  unfoldable pub signed_state : AttestService Hash → Result (MsgTx Hash) → Outcome Hash
  signed_state s (err e) = some (set_failure e s, re_subscribe ∷ [])
  signed_state s (ok signed_tx) =
      let att : Attestation Hash = record (s.attestation) {
        tx = signed_tx;
        txid = w.tx_hash signed_tx;
      } in
      some (record s { attestation = att; state = astate_pre_send_store }, [])

module _ {Hash : Type 0} ⦃c : Hashing Hash⦄ ⦃w : Wire Hash⦄ (r : Replies Hash) where
  unfoldable pub do_state_next_commitment : AttestService Hash → Outcome Hash
  unfolding attempt
  do_state_next_commitment s = r.client_commitment >>= λ latest.
      attempt latest s [] λ latest_commitment.
        let started : AttestService Hash = record s {
          attestation = set_commitment latest_commitment new_attestation_default;
          state = astate_new_attestation;
        } in
        if c.beq (get_commitment_hash latest_commitment) (commitment_hash s.attestation)
        then some (record s { attest_delay = atime_skip }, [])
        else some (started, [])

  -- The pre-images are published to the signers, and the service waits for their signatures.
  unfoldable pub publish : Hash → List (Effect Hash) → AttestService Hash → Outcome Hash
  unfolding attempt
  publish last fx s = attempt (r.pre_images last s.attestation.tx) s fx λ tx_pre_images.
      let bytes = map w.serialize tx_pre_images in
      some (
        record s { state = astate_sign_attestation; attest_delay = atime_sigs },
        fx ++ re_subscribe ∷ send_tx_pre_images bytes ∷ [],
      )

  -- The request for signatures of doStateNewAttestation.
  unfoldable pub request_sigs : Hash → List (Effect Hash) → AttestService Hash → Outcome Hash
  unfolding first_previous last_word publish
  request_sigs last fx s = first_previous s.attestation.tx >>= λ tx_id.
      r.raw_verbose tx_id >>= λ raw_tx. get_elem? raw_tx.vin_asm 0 >>= λ asm.
      let redeem_script = last_word [] asm in
      let merkle_root = w.hash_string last in
      let fx' = fx ++ ask_sigs (raw_tx.hash) redeem_script merkle_root ∷ [] in
      r.get_sigs (raw_tx.hash) redeem_script merkle_root >>= λ received.
      publish last fx' (record s { sigs = received })

  -- doStateNewAttestation from the last unspent on.
  unfoldable pub spend :
      String → ListUnspentResult → List (Effect Hash) → AttestService Hash → Outcome Hash
  unfolding attempt last_commitment_for request_sigs
  spend paytoaddr unspent fx s = attempt r.topup_unspent s fx λ topup.
      let unspent_list : List ListUnspentResult = elim topup [
        | none ↦ unspent ∷ []
        | some found ↦ unspent ∷ found ∷ []
      ] in
      create_attestation r.create_raw_transaction paytoaddr unspent_list s.attester >>= λ created.
      attempt created s fx λ new_tx.
        let att : Attestation Hash = record (s.attestation) { tx = new_tx } in
        let s1 : AttestService Hash = record s { attestation = att } in
        attempt (r.latest_hash true) s1 fx
          λ latest. last_commitment_for s1 latest >>= λ last. request_sigs last fx s1

  unfoldable pub do_state_new_attestation : AttestService Hash → Outcome Hash
  unfolding attempt check spend
  do_state_new_attestation s =
      let hash = commitment_hash s.attestation in
      attempt (r.next_key hash) s [] λ key. attempt (r.next_addr 0 key hash) s [] λ paytoaddr.
        let fx = import_attestation_addr paytoaddr false ∷ [] in
        check (r.import_addr 0 paytoaddr false) s fx (
          r.last_unspent >>= λ last. attempt last s fx λ success.
            maybe success (some (set_failure erro_unspent_not_found s, fx))
              λ unspent. spend paytoaddr unspent fx s)

  -- signAttestation writes into the transaction it is given, also if it then fails.
  unfoldable pub do_state_sign_attestation : AttestService Hash → Outcome Hash
  unfolding attempt last_commitment_for signed_state
  do_state_sign_attestation s = attempt (r.latest_hash true) s [] λ latest.
      last_commitment_for s latest >>= λ last.
      r.sign s.attestation.tx s.sigs last >>= λ (written, signed).
      let att : Attestation Hash = record (s.attestation) { tx = written } in
      signed_state (record s { attestation = att }) signed

  unfoldable pub do_state_pre_send_store : AttestService Hash → Outcome Hash
  unfolding check
  do_state_pre_send_store s =
      let fx = update_latest_attestation s.attestation ∷ [] in
      check (r.update_latest s.attestation) s fx
        (some (record s { state = astate_send_attestation }, fx))

  unfoldable pub do_state_send_attestation : AttestService Hash → Outcome Hash
  unfolding attempt
  do_state_send_attestation s =
      let fx = send_attestation s.attestation.tx ∷ [] in
      attempt (r.send s.attestation.tx) s fx λ txid.
        let att : Attestation Hash = record (s.attestation) { txid = txid } in
        some (
          record s {
            attestation = att;
            state = astate_await_confirmation;
            attest_delay = atime_confirmation;
            confirm_time = r.now;
            is_fee_bumped = false;
          },
          fx,
        )
