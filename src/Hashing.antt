-- ===== src/Hashing.antt =====
-- What the program uses of github.com/btcsuite/btcd/chaincfg/chainhash, a third-party package:
-- the type `chainhash.Hash` (an array of bytes, compared by `==`), its zero value, its bytes, and
-- `DoubleHashH`, sha256 applied twice to a byte slice.
pub mod Toy
use mainstay.Prelude.{ℕ, ◌≡◌, ◌↔◌, Bool, true, List}

pub record Hashing (Hash : Type 0) : Type 0 where
  pub beq : Hash → Hash → Bool
  pub beq_iff : (a b : Hash) → (beq a b ≡ true) ↔ (a ≡ b)
  pub zero_hash : Hash
  pub bytes : Hash → List ℕ
  pub double_hash_h : List ℕ → Hash
