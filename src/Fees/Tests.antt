-- ===== src/Fees/Tests.antt =====
-- Runs of the fee code, and the theorems of Fees at concrete inputs.
use mainstay.Prelude.{◌+◌, ◌*◌, ◌≡◌, refl, arith, [], ◌∷◌, true, min}
use mainstay.Prelude.Int.{pos, pos_part, ◌<ℤ◌}
use mainstay.Fees.{
  FeesConfig, FeeResponse, request_failed, decoded, AttestFees, get_fee_from_api, get_best_fee,
  reset_fee, new_attest_fees, bump_fee, set_current_fee,
}
use mainstay.Fees.Bounds.{
  IsValid, reset_fee-IsValid, new_attest_fees-IsValid, bumps, bumps-eq-min, bump_fee_overflow,
}

abbrev config : FeesConfig
config = record { min_fee = pos 5; max_fee = pos 30; fee_increment = pos 10 }

abbrev answer : FeeResponse
answer = decoded (("fastestFee", pos 40) ∷ ("hourFee", pos 12) ∷ [])

-- The state of `NewAttestFees` for this configuration and answer.
abbrev started : AttestFees
started = record {
  min_fee = pos 5;
  max_fee = pos 30;
  fee_increment = pos 10;
  current_fee = pos 12;
  prev_fee = pos 0;
}

new_attest_fees-started : new_attest_fees answer config ≡ started
unfolding new_attest_fees reset_fee get_best_fee get_fee_from_api
new_attest_fees-started = refl

started-IsValid : IsValid started
started-IsValid = ground arith

-- An increment just below the largest `int`.
abbrev huge : AttestFees
huge = record started { fee_increment = pos 9223372036854775800 }

huge-IsValid : IsValid huge
huge-IsValid = ground arith

reset_fee-IsValid_example :
    let r = reset_fee request_failed (true ∷ []) (set_current_fee (pos 500) started) in
    IsValid r × (r.prev_fee ≡ pos 0) × (r.min_fee ≡ pos 5) × (r.max_fee ≡ pos 30)
unfolding set_current_fee
reset_fee-IsValid_example =
    reset_fee-IsValid request_failed (true ∷ []) (set_current_fee (pos 500) started) (ground arith)

new_attest_fees-IsValid_example : IsValid (new_attest_fees answer config)
new_attest_fees-IsValid_example = new_attest_fees-IsValid answer config

bumps-eq-min_example :
    IsValid (bumps 3 started) × (pos_part (bumps 3 started).current_fee ≡ min 30 (12 + 3 * 10))
bumps-eq-min_example = bumps-eq-min 3 started started-IsValid (omega arith)

bump_fee_overflow_example : (bump_fee huge).current_fee <ℤ pos 0
bump_fee_overflow_example =
    bump_fee_overflow huge huge-IsValid (omega arith, omega arith) (omega arith)
