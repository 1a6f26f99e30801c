-- ===== src/Service/Flag.antt =====
-- The flag isFeeBumped.
use mainstay.Prelude.{◌≡◌, refl, Bool, false, List, [], ◌∷◌}
use mainstay.Prelude.Int.{ℤ}
use mainstay.Hashing.{Hashing}
use mainstay.Wire.{Wire}
use mainstay.Client.{AttestClient}
use mainstay.Service.{
  AttestationState, astate_error, astate_init, astate_next_commitment, astate_new_attestation,
  astate_sign_attestation, astate_pre_send_store, astate_send_attestation,
  astate_await_confirmation, astate_handle_unconfirmed, AttestService, Replies, set_failure,
}
use mainstay.Service.Init.{do_state_error, do_state_init}
use mainstay.Service.Create.{
  do_state_next_commitment, do_state_new_attestation, do_state_sign_attestation, signed_state,
  do_state_pre_send_store, do_state_send_attestation,
}
use mainstay.Service.Confirm.{do_state_await_confirmation, do_state_handle_unconfirmed}
use mainstay.Service.Run.{dispatch, do_attestation, round, rounds, run, new_attest_service}
use mainstay.Service.Hoare.{After, After-then, After-if, after}

-- The flag is down in the two states between which the fee is bumped.
abbrev pub FlagClear : AttestationState → Bool → Type 0
FlagClear astate_await_confirmation flag = flag ≡ false
FlagClear astate_handle_unconfirmed flag = flag ≡ false
FlagClear _ flag = Unit {0}

module _ {Hash : Type 0} ⦃c : Hashing Hash⦄ ⦃w : Wire Hash⦄ (r : Replies Hash) where
  dispatch-FlagClear :
      (from : AttestationState) (s : AttestService Hash)
      → s.state ≡ from
      → FlagClear from s.is_fee_bumped
      → After (λ t fx. FlagClear t.state t.is_fee_bumped) (dispatch r from s)
  unfolding dispatch do_state_error do_state_init do_state_next_commitment do_state_new_attestation
      do_state_sign_attestation signed_state do_state_pre_send_store do_state_send_attestation
      do_state_await_confirmation do_state_handle_unconfirmed set_failure
  dispatch-FlagClear astate_error s at h = tt
  dispatch-FlagClear astate_init s at h = search (after) depth 40 fits 3000
  dispatch-FlagClear astate_next_commitment s at h =
      let stay : FlagClear s.state s.is_fee_bumped = rw at tt in
      search (after, stay) depth 40 fits 3000
  dispatch-FlagClear astate_new_attestation s at h = search (after) depth 40 fits 3000
  dispatch-FlagClear astate_sign_attestation s at h = search (after) depth 40 fits 3000
  dispatch-FlagClear astate_pre_send_store s at h = search (after) depth 40 fits 3000
  dispatch-FlagClear astate_send_attestation s at h = search (after) depth 40 fits 3000
  dispatch-FlagClear astate_await_confirmation s at h =
      let stay : FlagClear s.state s.is_fee_bumped = rw at h in
      search (after, stay, h) depth 40 fits 3000
  dispatch-FlagClear astate_handle_unconfirmed s at h = search (after) depth 40 fits 3000

  do_attestation-FlagClear :
      (s : AttestService Hash)
      → FlagClear s.state s.is_fee_bumped
      → After (λ t fx. FlagClear t.state t.is_fee_bumped) (do_attestation r s)
  unfolding do_attestation
  do_attestation-FlagClear s h = dispatch-FlagClear s.state _ refl h

  round-FlagClear :
      (s : AttestService Hash)
      → FlagClear s.state s.is_fee_bumped
      → After (λ t fx. FlagClear t.state t.is_fee_bumped) (round r s)
  unfolding round
  round-FlagClear s h =
      After-then (λ t fx. FlagClear t.state t.is_fee_bumped)
        (λ t fx. FlagClear t.state t.is_fee_bumped) (do_attestation r s) _
        (do_attestation-FlagClear s h) λ t fx q. After-if _ t.is_regtest _ _ q q

module _ {Hash : Type 0} ⦃c : Hashing Hash⦄ ⦃w : Wire Hash⦄ where
  rounds-FlagClear :
      (rs : List (Replies Hash)) (s : AttestService Hash)
      → FlagClear s.state s.is_fee_bumped
      → After (λ t fx. FlagClear t.state t.is_fee_bumped) (rounds rs s)
  unfolding rounds
  rounds-FlagClear [] s h = h
  rounds-FlagClear (r ∷ rs) s h =
      After-then _ (λ t fx. FlagClear t.state t.is_fee_bumped) (round r s) _ (round-FlagClear r s h)
        λ t fx q.
          After-then _ (λ t fx. FlagClear t.state t.is_fee_bumped) (rounds rs t) _
            (rounds-FlagClear rs t q) λ last fx' q'. q'

  -- In every run of the service from its start, whatever it is answered, the flag isFeeBumped is
  -- down whenever the service awaits a confirmation or handles an unconfirmed attestation.
  pub run-FlagClear :
      (rs : List (Replies Hash)) (client : AttestClient) (new unconfirmed : ℤ) (regtest : Bool)
      → After
          (λ t fx. FlagClear t.state t.is_fee_bumped)
          (run rs (new_attest_service client new unconfirmed regtest))
  unfolding run new_attest_service
  run-FlagClear rs client new unconfirmed regtest = rounds-FlagClear rs _ tt
