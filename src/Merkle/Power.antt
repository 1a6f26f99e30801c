-- ===== src/Merkle/Power.antt =====
-- `next_pow` gives the least power of two, from 2 on, that is at least its argument.
use Prim.Native.Nat.{bit_and}
use mainstay.Prelude.{
  ℕ, zero, suc, ◌+◌, ◌-◌, ◌/◌, ◌^◌, ◌≤◌, ◌<◌, ◌≡◌, ◌≢◌, refl, sym, ◌⊎◌, ℕ_discrete, arith, inl, inr,
  Bool-cases, ltb, ◌==◌,
}
use native.Mathlib.Numerals.{add-one}
use mainstay.Prelude.Power.{twice, pow2, twice-eq, pow2-eq, pow2-pos, bit_and-pow2, pow2_of_bit_and}
use mainstay.Merkle.Tree.{log2, log2_loop, next_pow}

log2_loop_bounds :
    (f n : ℕ) → 0 < n → n ≤ f → (pow2 (log2_loop f n) ≤ n) × (n < pow2 (suc (log2_loop f n)))
unfolding log2_loop
log2_loop_bounds zero n p h = absurd (omega arith)
log2_loop_bounds (suc f) n p h = elim (Bool-cases (ltb n 2)) [
  | inl small ↦ rw small (ground arith)
  | inr large ↦ rw large (
      let two : 2 ≤ n = ground arith in
      omega (
        arith,
        log2_loop_bounds f (n / 2) (omega arith) (omega arith),
        twice-eq (pow2 (log2_loop f (n / 2))),
        twice-eq (twice (pow2 (log2_loop f (n / 2)))),
      ))
]

-- The least power of two from 2 on that is at least n.
abbrev pub IsLeast : ℕ → ℕ → Type 0
IsLeast n m = (k : ℕ) × (m ≡ pow2 (suc k)) × (n ≤ pow2 (suc k)) × ((k ≡ 0) ⊎ (pow2 k < n))

IsLeast-power : (j n : ℕ) → n ≡ pow2 j → n ≢ 1 → IsLeast n n
IsLeast-power zero n e d = absurd (d e)
IsLeast-power (suc k) n e d =
    (k, e, omega arith, inr (omega (arith, twice-eq (pow2 k), pow2-pos k)))

IsLeast-log2 : (n : ℕ) → 0 < n → bit_and n (n - 1) ≢ 0 → IsLeast n (2 ^ (log2 n + 1))
unfolding log2
IsLeast-log2 n p d =
    let (low, high) = log2_loop_bounds n n p (omega arith) in
    let next : 2 ^ (log2_loop n n + 1) ≡ pow2 (suc (log2_loop n n)) =
      rw add-one (sym (pow2-eq (suc (log2_loop n n)))) in
    (log2_loop n n, next, omega arith, inr (strict (log2_loop n n) low))
  where
    strict : (k : ℕ) → pow2 k ≤ n → pow2 k < n
    strict k low = elim (ℕ_discrete n (pow2 k)) [
      | yes e ↦ absurd (d (rw e (bit_and-pow2 k)))
      | no e ↦ omega arith
    ]

-- For a positive n, next_pow n is a power 2 ^ (k + 1) that is at least n, and k is 0 or the next
-- smaller power 2 ^ k is below n.
pub next_pow-IsLeast : (n : ℕ) → 0 < n → IsLeast n (next_pow n)
unfolding next_pow
next_pow-IsLeast n p = elim (Bool-cases (n == 1)) [
  | inl one ↦ rw one (0, refl, ground arith, inl refl)
  | inr more ↦ elim (Bool-cases (bit_and n (n - 1) == 0)) [
    | inl power ↦
        rw (more, power)
          (let (j, e) = pow2_of_bit_and n p (ground arith) in IsLeast-power j n e (ground arith))
    | inr other ↦ rw (more, other) (IsLeast-log2 n p (ground arith))
  ]
]
