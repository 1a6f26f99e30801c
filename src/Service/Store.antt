-- ===== src/Service/Store.antt =====
-- attestation/attestservice.go: which calls come before the sending of a transaction.
use mainstay.Prelude.{
  ◌*◌, ◌≡◌, refl, Bool, String, Option, some, none, List, [], ◌∷◌, inl, inr, Option-cases,
}
use mainstay.Prelude.Int.{ℤ, pos}
use mainstay.Hashing.{Hashing}
use mainstay.Wire.{Wire}
use mainstay.Attestation.{Attestation}
use mainstay.Client.{AttestClient}
use mainstay.Service.{
  AttestationState, astate_error, astate_init, astate_next_commitment, astate_new_attestation,
  astate_sign_attestation, astate_pre_send_store, astate_send_attestation,
  astate_await_confirmation, astate_handle_unconfirmed, AttestService, Replies, Effect, Outcome,
  set_failure, update_latest_attestation, send_attestation, check, second,
}
use mainstay.Service.Init.{do_state_error, do_state_init}
use mainstay.Service.Create.{
  do_state_next_commitment, do_state_new_attestation, do_state_sign_attestation, signed_state,
  do_state_pre_send_store, do_state_send_attestation,
}
use mainstay.Service.Confirm.{do_state_await_confirmation, do_state_handle_unconfirmed}
use mainstay.Service.Run.{dispatch, do_attestation, round, new_attest_service}
use mainstay.Service.Hoare.{After, After-then, After-if, after}

-- What a round has stored: the attestation of its only call, an update of the server, if the
-- server answers it without an error.
abbrev stored_by : {Hash : Type 0} → Replies Hash → List (Effect Hash) → Option (Attestation Hash)
stored_by {Hash} r (update_latest_attestation a ∷ []) = unless (r.update_latest a)
  where
    unless : Option String → Option (Attestation Hash)
    unless none = some a
    unless (some e) = none
stored_by r _ = none

-- Each transaction that the calls send is the one of the attestation that is stored.
abbrev Sent : {Hash : Type 0} → Option (Attestation Hash) → List (Effect Hash) → Type 0
Sent stored [] = Unit {0}
Sent {Hash} stored (send_attestation tx ∷ fx) =
    ((a : Attestation Hash) × (stored ≡ some a) × (a.tx ≡ tx)) × Sent stored fx
Sent stored (_ ∷ fx) = Sent stored fx

-- In each round of the loop, with the answers that it gets, only a transaction is sent that the
-- round before it has stored; `stored` is what the round before the first has.
abbrev pub StoredFirst :
    {Hash : Type 0}
    → ⦃c : Hashing Hash⦄ → ⦃w : Wire Hash⦄ → Option (Attestation Hash)
    → List (Replies Hash)
    → AttestService Hash
    → Type 0
StoredFirst stored [] s = Unit {0}
StoredFirst stored (r ∷ rs) s =
    After (λ t fx. Sent stored fx × StoredFirst (stored_by r fx) rs t) (round r s)

-- In the state that sends, the attestation has been stored.
abbrev Ready :
    {Hash : Type 0} → AttestationState → Option (Attestation Hash) → Attestation Hash → Type 0
Ready astate_send_attestation stored a = stored ≡ some a
Ready _ stored a = Unit {0}

module _ {Hash : Type 0} ⦃c : Hashing Hash⦄ ⦃w : Wire Hash⦄ (r : Replies Hash) where
  abbrev Kept : Option (Attestation Hash) → AttestService Hash → List (Effect Hash) → Type 0
  Kept stored t fx = Sent stored fx × Ready t.state (stored_by r fx) t.attestation

  dispatch-Kept :
      (from : AttestationState) (stored : Option (Attestation Hash)) (s : AttestService Hash)
      → s.state ≡ from
      → Ready from stored s.attestation
      → After (Kept stored) (dispatch r from s)
  unfolding dispatch do_state_error do_state_init do_state_next_commitment do_state_new_attestation
      do_state_sign_attestation signed_state do_state_pre_send_store do_state_send_attestation
      do_state_await_confirmation do_state_handle_unconfirmed set_failure check
  dispatch-Kept astate_error stored s at h = (tt, tt)
  dispatch-Kept astate_init stored s at h = search (after) depth 60 fits 5000
  dispatch-Kept astate_next_commitment stored s at h =
      let stay : Ready s.state none s.attestation = rw at tt in
      search (after, stay) depth 60 fits 5000
  dispatch-Kept astate_new_attestation stored s at h = search (after) depth 60 fits 5000
  dispatch-Kept astate_sign_attestation stored s at h = search (after) depth 60 fits 5000
  dispatch-Kept astate_pre_send_store stored s at h =
      elim (Option-cases (r.update_latest s.attestation)) [
        | inl done ↦ rw (done, done) (tt, refl)
        | inr (e, failed) ↦ rw failed (tt, tt)
      ]
  dispatch-Kept astate_send_attestation stored s at h =
      let allowed : Sent stored (send_attestation s.attestation.tx ∷ []) =
        ((s.attestation, h, refl), tt) in
      search (after, allowed) depth 60 fits 5000
  dispatch-Kept astate_await_confirmation stored s at h =
      let stay : Ready s.state none s.attestation = rw at tt in
      search (after, stay) depth 60 fits 5000
  dispatch-Kept astate_handle_unconfirmed stored s at h = search (after) depth 60 fits 5000

  do_attestation-Kept :
      (stored : Option (Attestation Hash)) (s : AttestService Hash)
      → Ready s.state stored s.attestation
      → After (Kept stored) (do_attestation r s)
  unfolding do_attestation
  do_attestation-Kept stored s h = dispatch-Kept s.state stored _ refl h

  round-Kept :
      (stored : Option (Attestation Hash)) (s : AttestService Hash)
      → Ready s.state stored s.attestation
      → After (Kept stored) (round r s)
  unfolding round
  round-Kept stored s h =
      After-then (Kept stored) (Kept stored) (do_attestation r s) _ (do_attestation-Kept stored s h)
        λ t fx q. After-if _ t.is_regtest _ _ q q

module _ {Hash : Type 0} ⦃c : Hashing Hash⦄ ⦃w : Wire Hash⦄ where
  Ready-StoredFirst :
      (rs : List (Replies Hash)) (stored : Option (Attestation Hash)) (s : AttestService Hash)
      → Ready s.state stored s.attestation
      → StoredFirst stored rs s
  Ready-StoredFirst [] stored s h = tt
  Ready-StoredFirst (r ∷ rs) stored s h =
      further (λ fx. Ready-StoredFirst rs (stored_by r fx)) (round r s) (round-Kept r stored s h)
    where
      further :
          ((fx : List (Effect Hash)) (t : AttestService Hash)
            → Ready t.state (stored_by r fx) t.attestation
            → StoredFirst (stored_by r fx) rs t)
          → (o : Outcome Hash) → After (Kept r stored) o
          → After (λ t fx. Sent stored fx × StoredFirst (stored_by r fx) rs t) o
      further ih none q = tt
      further ih (some (t, fx)) (sent, ready) = (sent, ih fx t ready)

  -- From the state in which the loop of the service starts, whatever each round is answered: a
  -- transaction that a round sends was stored by the round just before it, whose only call was an
  -- update of the server with an attestation that holds the transaction, and was answered without
  -- an error.
  pub new_attest_service-StoredFirst :
      (rs : List (Replies Hash)) (client : AttestClient) (new unconfirmed : ℤ) (regtest : Bool)
      → StoredFirst none rs (record (new_attest_service client new unconfirmed regtest) {
        attest_delay = pos (10 * second);
      })
  unfolding new_attest_service
  new_attest_service-StoredFirst rs client new unconfirmed regtest = Ready-StoredFirst rs none _ tt
