-- ===== src/Prelude/Power.antt =====
-- Powers of two by doubling, and the test `n & (n - 1) == 0`.
use Prim.Native.Nat.{
  ℕ, zero, suc, ◌+◌, ◌-◌, ◌*◌, ◌/◌, ◌%◌, ◌^◌, ◌≤◌, ◌<◌, min, bit_and, digits, bit_and-bitwise,
}
use native.Mathlib.Nat.{pow-suc}
use mathlib.Core.Path.{◌≡◌, refl, ap, ◌∙◌}
use native.Mathlib.Omega.{arith}
use native.Mathlib.Decide.{ℕ_discrete}

-- 2 ^ k, by clauses.
abbrev pub twice : ℕ → ℕ
twice zero = zero
twice (suc n) = suc (suc (twice n))

abbrev pub pow2 : ℕ → ℕ
pow2 zero = 1
pow2 (suc k) = twice (pow2 k)

pub twice-eq : (n : ℕ) → twice n ≡ 2 * n
twice-eq zero = refl
twice-eq (suc n) = omega (arith, twice-eq n)

pub pow2-eq : (k : ℕ) → pow2 k ≡ 2 ^ k
pow2-eq zero = refl
pow2-eq (suc k) = omega (arith, twice-eq (pow2 k), pow2-eq k, pow-suc 2 k)

pub pow2-pos : (k : ℕ) → 0 < pow2 k
pow2-pos zero = omega arith
pow2-pos (suc k) = omega (arith, twice-eq (pow2 k), pow2-pos k)

pub pow2-inj : (j k : ℕ) → pow2 j ≡ pow2 k → j ≡ k
pow2-inj zero zero e = refl
pow2-inj zero (suc k) e = absurd (omega (arith, twice-eq (pow2 k)))
pow2-inj (suc j) zero e = absurd (omega (arith, twice-eq (pow2 j)))
pow2-inj (suc j) (suc k) e =
    ap suc (pow2-inj j k (omega (arith, twice-eq (pow2 j), twice-eq (pow2 k))))

-- `bit_and` by its digits, over a fuel that bounds the first number.
abbrev common : ℕ → ℕ → ℕ → ℕ
common = digits (λ _. zero) min

common-zero : (fuel y : ℕ) → common fuel zero y ≡ zero
common-zero zero y = refl
common-zero (suc fuel) y = refl

-- Any two fuels that suffice agree.
common-agree :
    (fuel more : ℕ) {x : ℕ} (y : ℕ) → x ≤ fuel → x ≤ more → common fuel x y ≡ common more x y
common-agree fuel more {x = zero} y _ _ = rw (common-zero fuel y, common-zero more y)
common-agree zero more {x = suc x} y few _ = elim few [ ]
common-agree (suc fuel) zero {x = suc x} y _ few = elim few [ ]
common-agree (suc fuel) (suc more) {x = suc x} y enough plenty =
    let halved = common-agree fuel more {x = suc x / 2} (y / 2) (omega arith) (omega arith) in
    rw halved

-- The lowest digit of a conjunction, split off.
bit_and-halves : (x y : ℕ) → bit_and x y ≡ 2 * bit_and (x / 2) (y / 2) + min (x % 2) (y % 2)
bit_and-halves zero y =
    let nothing = λ (z : ℕ). bit_and-bitwise zero z ∙ common-zero zero z in
    omega (arith, nothing y, nothing (y / 2))
bit_and-halves (suc x) y =
    let lower = common-agree x (suc x / 2) {x = suc x / 2} (y / 2) (omega arith) (omega arith) in
    let whole = bit_and-bitwise (suc x) y in
    let upper = bit_and-bitwise (suc x / 2) (y / 2) in omega (arith, whole, upper, lower)

-- A number shares all its digits with itself.
bit_and_self-below : (bound : ℕ) {x : ℕ} → x < bound → bit_and x x ≡ x
bit_and_self-below zero few = elim few [ ]
bit_and_self-below (suc bound) {x = zero} _ = refl
bit_and_self-below (suc bound) {x = suc x} under =
    let rest = bit_and_self-below bound {x = suc x / 2} (omega arith) in
    omega (arith, bit_and-halves (suc x) (suc x), rest)

bit_and_self : (x : ℕ) → bit_and x x ≡ x
bit_and_self x = bit_and_self-below (suc x) (omega arith)

-- A power of two has no digit in common with its predecessor.
pub bit_and-pow2 : (k : ℕ) → bit_and (pow2 k) (pow2 k - 1) ≡ 0
bit_and-pow2 zero = refl
bit_and-pow2 (suc k) = omega (
  arith,
  twice-eq (pow2 k),
  pow2-pos k,
  bit_and-halves (twice (pow2 k)) (twice (pow2 k) - 1),
  bit_and-pow2 k,
  half,
)
  where
    half : bit_and (twice (pow2 k) / 2) ((twice (pow2 k) - 1) / 2) ≡ bit_and (pow2 k) (pow2 k - 1)
    half =
        let e : twice (pow2 k) / 2 ≡ pow2 k = omega (arith, twice-eq (pow2 k)) in
        let d : (twice (pow2 k) - 1) / 2 ≡ pow2 k - 1 =
          omega (arith, twice-eq (pow2 k), pow2-pos k) in
        rw (e, d)

pow2_of_bit_and_fuel : (f n : ℕ) → 0 < n → n ≤ f → bit_and n (n - 1) ≡ 0 → (k : ℕ) × (n ≡ pow2 k)
pow2_of_bit_and_fuel zero n p h e = absurd (omega arith)
pow2_of_bit_and_fuel (suc f) n p h e = elim (ℕ_discrete (n % 2) 0) [
  | yes even ↦
      let d : (n - 1) / 2 ≡ n / 2 - 1 = omega arith in
      let e' : bit_and (n / 2) (n / 2 - 1) ≡ 0 = rw d at (high n e) in
      let (k, q) = pow2_of_bit_and_fuel f (n / 2) (omega arith) (omega arith) e' in
      (suc k, omega (arith, twice-eq (pow2 k)))
  | no odd ↦
      let d : (n - 1) / 2 ≡ n / 2 = omega arith in
      let e' : bit_and (n / 2) (n / 2) ≡ 0 = rw d at (high n e) in
      (0, omega (arith, bit_and_self (n / 2)))
]
  where
    high : (m : ℕ) → bit_and m (m - 1) ≡ 0 → bit_and (m / 2) ((m - 1) / 2) ≡ 0
    high m z = omega (arith, bit_and-halves m (m - 1))

-- A positive number without a digit in common with its predecessor is a power of two.
pub pow2_of_bit_and : (n : ℕ) → 0 < n → bit_and n (n - 1) ≡ 0 → (k : ℕ) × (n ≡ pow2 k)
pow2_of_bit_and n p e = pow2_of_bit_and_fuel n n p (omega arith) e
