-- ===== src/Fees/Bounds.antt =====
-- The limits of the fee per byte, and how it grows under BumpFee.
use mainstay.Prelude.{ℕ, zero, suc, ◌+◌, ◌*◌, ◌≤◌, ◌≡◌, ap, List, Bool, arith, min}
use mainstay.Prelude.Int.{pos, pos_part, ◌+ℤ◌, ◌≤ℤ◌, ◌<ℤ◌, wrap64, wrap64_id, IsInt64}
use mainstay.Fees.{
  FeesConfig, AttestFees, FeeResponse, reset_fee, new_attest_fees, bump_fee, set_current_fee,
  default_max_fee,
}

-- The limits are those that `NewAttestFees` enforces.
pub record HasLimits (a : AttestFees) : Type 0 where
  pub min_positive : pos 0 <ℤ a.min_fee
  pub ordered : a.min_fee <ℤ a.max_fee
  pub max_bounded : a.max_fee ≤ℤ default_max_fee
  pub increment_positive : pos 0 <ℤ a.fee_increment

-- The current fee lies between the limits.
pub record IsValid (a : AttestFees) : Type 0 where
  pub limits : HasLimits a
  pub at_least : a.min_fee ≤ℤ a.current_fee
  pub at_most : a.current_fee ≤ℤ a.max_fee

-- From any state with such limits, also after setCurrentFee, ResetFee brings the current fee
-- between the limits, keeps the limits and clears the previous fee, whatever the API answers.
pub reset_fee-IsValid :
    (resp : FeeResponse) (use_minimum : List Bool) (a : AttestFees)
    → HasLimits a
    → let r = reset_fee resp use_minimum a in
      IsValid r × (r.prev_fee ≡ pos 0) × (r.min_fee ≡ a.min_fee) × (r.max_fee ≡ a.max_fee)
unfolding reset_fee
reset_fee-IsValid resp use_minimum a h = ground arith

-- Every configuration and every answer of the fee API give limits with 0 < min < max ≤ 100, a
-- positive increment, and a current fee between the limits.
pub new_attest_fees-IsValid :
    (resp : FeeResponse) (c : FeesConfig) → IsValid (new_attest_fees resp c)
unfolding new_attest_fees
new_attest_fees-IsValid resp c = (reset_fee-IsValid resp _ _ (ground arith)).0

-- An increment at which no bump overflows an `int`.
abbrev pub CanBump : AttestFees → Type 0
CanBump a = pos_part a.fee_increment + 100 ≤ 9223372036854775807

abbrev pub bumps : ℕ → AttestFees → AttestFees
bumps zero a = a
bumps (suc n) a = bumps n (bump_fee a)

-- One bump with the sum written out.
bump_fee_step :
    (a : AttestFees)
    → IsValid a
    → CanBump a
    → let b = bump_fee a in
      IsValid b
      × (b.fee_increment ≡ a.fee_increment)
      × (b.max_fee ≡ a.max_fee)
      × (pos_part b.current_fee
          ≡ min (pos_part a.max_fee) (pos_part a.current_fee + pos_part a.fee_increment))
unfolding bump_fee ◌+ℤ◌
bump_fee_step a v c = ground (arith, wrap64_id (a.current_fee +ℤ a.fee_increment))

-- From a valid state whose increment stays below the overflow of an `int`, n bumps keep the state
-- valid and give the fee min(max, current + n * increment).
pub bumps-eq-min :
    (n : ℕ) (a : AttestFees)
    → IsValid a
    → CanBump a
    → IsValid (bumps n a)
      × (pos_part (bumps n a).current_fee
          ≡ min (pos_part a.max_fee) (pos_part a.current_fee + n * pos_part a.fee_increment))
bumps-eq-min zero a v c = (v, ground arith)
bumps-eq-min (suc n) a v c =
    let (valid, inc, max, cur) = bump_fee_step a v c in
    let ih = bumps-eq-min n (bump_fee a) valid (rw inc c) in
    (
      ih.0,
      bumped (pos_part a.fee_increment) n _ _ _ _ _ _ ih.1 cur (ap pos_part max) (ap pos_part inc),
    )
  where
    bumped :
        (i n m cur m' i' cur' last : ℕ)
        → last ≡ min m' (cur' + n * i')
        → cur' ≡ min m (cur + i)
        → m' ≡ m
        → i' ≡ i
        → last ≡ min m (cur + suc n * i)
    bumped i n m cur m' i' cur' last p q r s = rw (p, q, r, s) (omega arith)

-- A bump of a valid state whose increment stays below the overflow of an `int` records the fee
-- that it replaces, and never lowers it.
pub bump_fee_mono :
    (a : AttestFees)
    → IsValid a
    → CanBump a
    → ((bump_fee a).prev_fee ≡ a.current_fee) × (a.current_fee ≤ℤ (bump_fee a).current_fee)
unfolding bump_fee ◌+ℤ◌
bump_fee_mono a v c = ground (arith, wrap64_id (a.current_fee +ℤ a.fee_increment))

-- The increment has no upper limit: if current fee and increment together pass the range of an
-- `int`, the bump of a valid state makes the fee per byte negative.
pub bump_fee_overflow :
    (a : AttestFees)
    → IsValid a
    → IsInt64 a.fee_increment
    → 9223372036854775808 ≤ pos_part a.current_fee + pos_part a.fee_increment
    → (bump_fee a).current_fee <ℤ pos 0
unfolding bump_fee ◌+ℤ◌ wrap64
bump_fee_overflow a v i h = ground arith

-- setCurrentFee ignores the limits: after it has set a fee above the maximum, whose sum with the
-- increment still is an `int`, a bump lowers the fee to the maximum.
bump_fee_lowers :
    (a : AttestFees) (fee : ℕ)
    → IsValid a
    → fee + pos_part a.fee_increment ≤ 9223372036854775807
    → a.max_fee <ℤ pos fee
    → let b = bump_fee (set_current_fee (pos fee) a) in
      (b.current_fee ≡ a.max_fee) × (b.current_fee <ℤ b.prev_fee)
unfolding bump_fee set_current_fee ◌+ℤ◌
bump_fee_lowers a fee v c h = ground (arith, wrap64_id (pos fee +ℤ a.fee_increment))
