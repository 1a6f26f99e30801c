-- ===== src/Fees.antt =====
-- attestation/attestfees.go: the fee per byte of attestation transactions. `int` is ℤ with wrap64;
-- a method of `*AttestFees` returns the new record. Logging is left out.
pub mod Bounds
mod Tests
use mainstay.Prelude.{ℕ, Bool, true, false, List, [], ◌∷◌, String, ◌&&◌, if◌then◌else◌, str_eq}
use mainstay.Prelude.Int.{ℤ, pos, negsuc, ◌+ℤ◌, ltb_ℤ, wrap64}

abbrev pub default_min_fee : ℤ
default_min_fee = pos 10

abbrev pub default_max_fee : ℤ
default_max_fee = pos 100

abbrev pub default_fee_increment : ℤ
default_fee_increment = pos 5

abbrev pub default_best_fee_type : String
default_best_fee_type = "hourFee"

-- `FeesConfig` of config/config.go
pub record FeesConfig : Type 0 where
  pub min_fee : ℤ
  pub max_fee : ℤ
  pub fee_increment : ℤ

pub record AttestFees : Type 0 where
  pub min_fee : ℤ
  pub max_fee : ℤ
  pub fee_increment : ℤ
  pub current_fee : ℤ
  pub prev_fee : ℤ

-- What `http.Get` and the JSON decoder give for the fee API: an error of either, or the decoded
-- map, in which a number stands by its truncation `int(fee)`.
pub data FeeResponse : Type 0 where
  request_failed decode_failed : FeeResponse
  decoded : List (String × ℤ) → FeeResponse

fee_of_type : String → List (String × ℤ) → ℤ
fee_of_type fee_type [] = negsuc 0
fee_of_type fee_type ((name, fee) ∷ rest) =
    if str_eq name fee_type then fee else fee_of_type fee_type rest

unfoldable pub get_fee_from_api : FeeResponse → String → ℤ
unfolding fee_of_type
get_fee_from_api request_failed fee_type = negsuc 0
get_fee_from_api decode_failed fee_type = negsuc 0
get_fee_from_api (decoded resp_json) fee_type = fee_of_type fee_type resp_json

-- The variadic `customFeeType` is a list.
unfoldable pub get_best_fee : FeeResponse → List String → ℤ
get_best_fee resp [] = get_fee_from_api resp default_best_fee_type
get_best_fee resp (custom_fee_type ∷ _) = get_fee_from_api resp custom_fee_type

-- `len(useMinimum) > 0 && useMinimum[0]`
abbrev first_flag : List Bool → Bool
first_flag [] = false
first_flag (b ∷ _) = b

unfoldable pub reset_fee : FeeResponse → List Bool → AttestFees → AttestFees
reset_fee resp use_minimum a =
    let best = get_best_fee resp [] in
    let fee =
      if first_flag use_minimum
      then a.min_fee
      else if ltb_ℤ best a.min_fee
      then a.min_fee
      else if ltb_ℤ a.max_fee best
      then a.max_fee
      else best in
    record a { current_fee = fee; prev_fee = pos 0 }

-- The three limits that `NewAttestFees` takes from the configuration.
unfoldable pub checked_min_fee : FeesConfig → ℤ
checked_min_fee c =
    if ltb_ℤ (pos 0) c.min_fee && ltb_ℤ c.min_fee default_max_fee
    then c.min_fee
    else default_min_fee

unfoldable pub checked_max_fee : FeesConfig → ℤ → ℤ
checked_max_fee c min_fee =
    if ltb_ℤ (pos 0) c.max_fee && ltb_ℤ min_fee c.max_fee && ltb_ℤ c.max_fee default_max_fee
    then c.max_fee
    else default_max_fee

unfoldable pub checked_fee_increment : FeesConfig → ℤ
checked_fee_increment c =
    if ltb_ℤ (pos 0) c.fee_increment then c.fee_increment else default_fee_increment

unfoldable pub new_attest_fees : FeeResponse → FeesConfig → AttestFees
unfolding checked_min_fee checked_max_fee checked_fee_increment
new_attest_fees resp fees_config =
    let min_fee = checked_min_fee fees_config in
    reset_fee resp [] (record {
      min_fee = min_fee;
      max_fee = checked_max_fee fees_config min_fee;
      fee_increment = checked_fee_increment fees_config;
      current_fee = pos 0;
      prev_fee = pos 0;
    })

unfoldable pub get_fee : AttestFees → ℤ
get_fee a = a.current_fee

unfoldable pub get_prev_fee : AttestFees → ℤ
get_prev_fee a = a.prev_fee

unfoldable pub bump_fee : AttestFees → AttestFees
bump_fee a =
    let bumped = wrap64 (a.current_fee +ℤ a.fee_increment) in
    record a {
      prev_fee = a.current_fee;
      current_fee = if ltb_ℤ a.max_fee bumped then a.max_fee else bumped;
    }

unfoldable pub set_current_fee : ℤ → AttestFees → AttestFees
set_current_fee fee a = record a { current_fee = fee }
