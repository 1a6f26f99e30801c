-- ===== src/Hashing/Toy.antt =====
-- A concrete `Hashing` for the tests: hashes are numbers, and two of them mix to 31 a + b + 7.
use mainstay.Prelude.{ℕ, ◌+◌, ◌*◌, List, [], ◌∷◌, ◌==◌, ==_iff}
use mainstay.Hashing.{Hashing}

abbrev pub mix : List ℕ → ℕ
mix [] = 7
mix (a ∷ []) = a + 7
mix (a ∷ b ∷ _) = 31 * a + b + 7

instance abbrev pub toy_hashing : Hashing ℕ
toy_hashing = record {
  beq = ◌==◌;
  beq_iff = ==_iff;
  zero_hash = 0;
  bytes = λ n. n ∷ [];
  double_hash_h = mix;
}
