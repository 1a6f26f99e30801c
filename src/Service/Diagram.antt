-- ===== src/Service/Diagram.antt =====
-- The transitions between the states of the service.
use mainstay.Prelude.{◌≡◌, refl, some, String}
use mainstay.Hashing.{Hashing}
use mainstay.Wire.{Wire}
use mainstay.Service.{
  AttestationState, astate_error, astate_init, astate_next_commitment, astate_new_attestation,
  astate_sign_attestation, astate_pre_send_store, astate_send_attestation,
  astate_await_confirmation, astate_handle_unconfirmed, AttestService, Replies, set_failure,
}
use mainstay.Service.Init.{do_state_error, do_state_init}
use mainstay.Service.Create.{
  do_state_next_commitment, do_state_new_attestation, do_state_sign_attestation, signed_state,
  do_state_pre_send_store, do_state_send_attestation,
}
use mainstay.Service.Confirm.{do_state_await_confirmation, do_state_handle_unconfirmed}
use mainstay.Service.Run.{dispatch, do_attestation}
use mainstay.Service.Hoare.{After, after}

-- The comments of the states in the source, with the failures.
pub data Next : AttestationState → AttestationState → Type 0 where
  recover : Next astate_error astate_init
  found_unconfirmed : Next astate_init astate_await_confirmation
  found_unspent : Next astate_init astate_next_commitment
  wallet_failure : Next astate_init astate_init
  skip : Next astate_next_commitment astate_next_commitment
  start : Next astate_next_commitment astate_new_attestation
  published : Next astate_new_attestation astate_sign_attestation
  signed : Next astate_sign_attestation astate_pre_send_store
  stored : Next astate_pre_send_store astate_send_attestation
  sent : Next astate_send_attestation astate_await_confirmation
  wait : Next astate_await_confirmation astate_await_confirmation
  timed_out : Next astate_await_confirmation astate_handle_unconfirmed
  confirm : Next astate_await_confirmation astate_next_commitment
  republished : Next astate_handle_unconfirmed astate_sign_attestation
  fail_init : Next astate_init astate_error
  fail_next : Next astate_next_commitment astate_error
  fail_new : Next astate_new_attestation astate_error
  fail_sign : Next astate_sign_attestation astate_error
  fail_store : Next astate_pre_send_store astate_error
  fail_send : Next astate_send_attestation astate_error
  fail_await : Next astate_await_confirmation astate_error
  fail_handle : Next astate_handle_unconfirmed astate_error

-- A failure leaves its error behind.
abbrev pub Reports : {Hash : Type 0} → AttestService Hash → AttestationState → Type 0
Reports t astate_error = (e : String) × (t.error_state ≡ some e)
Reports t _ = Unit {0}

pub reports :
    {Hash : Type 0} → (e : String) (s : AttestService Hash) → Reports (set_failure e s) astate_error
unfolding set_failure
reports e s = (e, refl)

-- A step that leaves the state as it was.
stays :
    {Hash : Type 0}
    → (from : AttestationState) (s : AttestService Hash) → Next from from
    → Reports s from
    → s.state ≡ from
    → Next from s.state × Reports s s.state
stays from s n q at = rw at (n, q)

module _ {Hash : Type 0} ⦃c : Hashing Hash⦄ ⦃w : Wire Hash⦄ (r : Replies Hash) where
  dispatch-Next :
      (from : AttestationState) (s : AttestService Hash)
      → s.state ≡ from
      → After (λ t fx. Next from t.state × Reports t t.state) (dispatch r from s)
  unfolding dispatch do_state_error do_state_init do_state_next_commitment do_state_new_attestation
      do_state_sign_attestation signed_state do_state_pre_send_store do_state_send_attestation
      do_state_await_confirmation do_state_handle_unconfirmed set_failure
  dispatch-Next astate_error s at = (recover, tt)
  dispatch-Next astate_init s at =
      search (after, fail_init, found_unconfirmed, found_unspent, wallet_failure, reports, tt) depth
        40 fits 3000
  dispatch-Next astate_next_commitment s at =
      search (after, stays astate_next_commitment s skip tt at, fail_next, start, reports, tt) depth
        40 fits 3000
  dispatch-Next astate_new_attestation s at =
      search (after, fail_new, published, reports, tt) depth 40 fits 3000
  dispatch-Next astate_sign_attestation s at =
      search (after, fail_sign, signed, reports, tt) depth 40 fits 3000
  dispatch-Next astate_pre_send_store s at =
      search (after, fail_store, stored, reports, tt) depth 40 fits 3000
  dispatch-Next astate_send_attestation s at =
      search (after, fail_send, sent, reports, tt) depth 40 fits 3000
  dispatch-Next astate_await_confirmation s at =
      search
        (
          after,
          stays astate_await_confirmation s wait tt at,
          fail_await,
          timed_out,
          confirm,
          reports,
          tt,
        )
        depth 40 fits 3000
  dispatch-Next astate_handle_unconfirmed s at =
      search (after, fail_handle, republished, reports, tt) depth 40 fits 3000

  -- Every step follows an edge of the diagram, and one that ends in the error state leaves its
  -- error behind.
  pub do_attestation-Next :
      (s : AttestService Hash)
      → After (λ t fx. Next s.state t.state × Reports t t.state) (do_attestation r s)
  unfolding do_attestation
  do_attestation-Next s = dispatch-Next s.state _ refl
