-- ===== src/Service/Run.antt =====
-- attestation/attestservice.go: doAttestation, the round of Run and NewAttestService.
use mainstay.Prelude.{◌*◌, Bool, false, none, some, List, [], ◌∷◌, ◌++◌, if◌then◌else◌}
use mainstay.Prelude.Int.{ℤ, pos, ◌*ℤ◌, ltb_ℤ, wrap64}
use mainstay.Prelude.Panic.{◌>>=◌}
use mainstay.Hashing.{Hashing}
use mainstay.Wire.{Wire}
use mainstay.Attestation.{new_attestation_default}
use mainstay.Client.{AttestClient}
use mainstay.Service.{
  second, AttestationState, astate_error, astate_init, astate_next_commitment,
  astate_new_attestation, astate_sign_attestation, astate_pre_send_store, astate_send_attestation,
  astate_await_confirmation, astate_handle_unconfirmed, AttestService, Replies, Outcome,
  atime_fixed, default_atime_new_attestation, default_atime_handle_unconfirmed,
}
use mainstay.Service.Init.{do_state_error, do_state_init}
use mainstay.Service.Create.{
  do_state_next_commitment, do_state_new_attestation, do_state_sign_attestation,
  do_state_pre_send_store, do_state_send_attestation,
}
use mainstay.Service.Confirm.{do_state_await_confirmation, do_state_handle_unconfirmed}

-- A number of minutes from the configuration, or the default.
unfoldable pub checked_minutes : ℤ → ℤ → ℤ
checked_minutes minutes default =
    if ltb_ℤ (pos 0) minutes then wrap64 (minutes *ℤ pos (60 * second)) else default

module _ {Hash : Type 0} ⦃c : Hashing Hash⦄ where
  -- The client, the two times of the configuration in minutes, and the flag for regtest; the
  -- variables of the package that it does not set are 0.
  unfoldable pub new_attest_service : AttestClient → ℤ → ℤ → Bool → AttestService Hash
  unfolding checked_minutes
  new_attest_service client new_minutes unconfirmed_minutes regtest = record {
    attester = client;
    state = astate_init;
    attestation = new_attestation_default;
    error_state = none;
    is_regtest = regtest;
    atime_new_attestation = checked_minutes new_minutes default_atime_new_attestation;
    atime_handle_unconfirmed = checked_minutes unconfirmed_minutes default_atime_handle_unconfirmed;
    attest_delay = pos 0;
    confirm_time = pos 0;
    is_fee_bumped = false;
    sigs = [];
  }

module _ {Hash : Type 0} ⦃c : Hashing Hash⦄ ⦃w : Wire Hash⦄ (r : Replies Hash) where
  -- The `switch`.
  unfoldable pub dispatch : AttestationState → AttestService Hash → Outcome Hash
  dispatch astate_error s = some (do_state_error s, [])
  dispatch astate_init s = do_state_init r s
  dispatch astate_next_commitment s = do_state_next_commitment r s
  dispatch astate_new_attestation s = do_state_new_attestation r s
  dispatch astate_sign_attestation s = do_state_sign_attestation r s
  dispatch astate_pre_send_store s = do_state_pre_send_store r s
  dispatch astate_send_attestation s = do_state_send_attestation r s
  dispatch astate_await_confirmation s = do_state_await_confirmation r s
  dispatch astate_handle_unconfirmed s = do_state_handle_unconfirmed r s

  unfoldable pub do_attestation : AttestService Hash → Outcome Hash
  unfolding dispatch
  do_attestation s = dispatch s.state (record s { attest_delay = atime_fixed })

  -- A round of the loop of `Run` whose timer has run out.
  unfoldable pub round : AttestService Hash → Outcome Hash
  unfolding do_attestation
  round s = do_attestation s >>= λ (t, fx).
      if t.is_regtest then some (record t { attest_delay = pos (5 * second) }, fx) else some (t, fx)

-- The rounds of `Run`, with the answers that each gets; the effects in order.
unfoldable pub rounds :
    {Hash : Type 0}
    → ⦃c : Hashing Hash⦄ → ⦃w : Wire Hash⦄ → List (Replies Hash)
    → AttestService Hash
    → Outcome Hash
unfolding round
rounds [] s = some (s, [])
rounds (r ∷ rs) s = round r s >>= λ (t, fx). rounds rs t >>= λ (last, fx'). some (last, fx ++ fx')

-- `Run`, which first waits 10 seconds.
unfoldable pub run :
    {Hash : Type 0}
    → ⦃c : Hashing Hash⦄ → ⦃w : Wire Hash⦄ → List (Replies Hash)
    → AttestService Hash
    → Outcome Hash
unfolding rounds
run rs s = rounds rs (record s { attest_delay = pos (10 * second) })
