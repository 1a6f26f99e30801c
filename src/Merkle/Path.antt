-- ===== src/Merkle/Path.antt =====
-- The ops of a merkle proof as a reference definition over the levels, and the loop of
-- buildMerkleProof, which reads them off the store.
use mainstay.Prelude.{
  ℕ, zero, suc, ◌+◌, ◌-◌, ◌/◌, ◌%◌, ◌≤◌, ◌≡◌, refl, arith, some, true, false, List, [], ◌∷◌, length,
  get_elem?, if◌then◌else◌,
}
use mathlib.Core.Option.{get_or}
use mainstay.Prelude.Power.{pow2}
use mainstay.Hashing.{Hashing}
use mainstay.Merkle.Tree.{hash_leaves}
use mainstay.Merkle.Levels.{next_level, root_of, length-next_level}
use mainstay.Merkle.Proof.{CommitmentMerkleProofOp, apply_ops}

module _ {Hash : Type 0} ⦃c : Hashing Hash⦄ where
  -- The op of the entry at an index of a level, and the hash that it leads to.
  abbrev pub op_at : List Hash → ℕ → CommitmentMerkleProofOp Hash
  op_at [] i = record { append = true; commitment = c.zero_hash }
  op_at (x ∷ []) i = record { append = true; commitment = x }
  op_at (x ∷ y ∷ r) zero = record { append = true; commitment = y }
  op_at (x ∷ y ∷ r) (suc zero) = record { append = false; commitment = x }
  op_at (x ∷ y ∷ r) (suc (suc i)) = op_at r i

  abbrev pub path : ℕ → List Hash → ℕ → List (CommitmentMerkleProofOp Hash)
  path zero xs i = []
  path (suc k) xs i = op_at xs i ∷ path k (next_level xs) (i / 2)

  abbrev pub apply_op : Hash → CommitmentMerkleProofOp Hash → Hash
  apply_op hash op =
      if op.append then hash_leaves hash op.commitment else hash_leaves op.commitment hash

  -- The op of an entry leads to the entry above it.
  pub next_level-op_at :
      (xs : List Hash) (i : ℕ) (h : Hash)
      → get_elem? xs i ≡ some h
      → get_elem? (next_level xs) (i / 2) ≡ some (apply_op h (op_at xs i))
  next_level-op_at [] i h e = cc
  next_level-op_at (x ∷ []) zero h e = ground arith
  next_level-op_at (x ∷ []) (suc i) h e = cc
  next_level-op_at (x ∷ y ∷ r) zero h e = ground arith
  next_level-op_at (x ∷ y ∷ r) (suc zero) h e = ground arith
  next_level-op_at (x ∷ y ∷ r) (suc (suc i)) h e =
      let z : suc (suc i) / 2 ≡ suc (i / 2) = omega arith in rw z (next_level-op_at r i h e)

  -- Applying the path of an entry gives the root.
  pub apply_ops-path :
      (k : ℕ) (xs : List Hash) (i : ℕ) (h : Hash)
      → length xs ≤ pow2 k
      → get_elem? xs i ≡ some h
      → root_of k xs ≡ some (apply_ops h (path k xs i))
  unfolding apply_ops
  apply_ops-path zero [] i h l e = cc
  apply_ops-path zero (x ∷ []) zero h l e = e
  apply_ops-path zero (x ∷ []) (suc i) h l e = cc
  apply_ops-path zero (x ∷ y ∷ r) i h l e = absurd (omega arith)
  apply_ops-path (suc k) xs i h l e =
      apply_ops-path k (next_level xs) (i / 2) (apply_op h (op_at xs i))
        (length-next_level (pow2 k) xs l) (next_level-op_at xs i h e)

  -- What the neighbours of an entry are.
  pub op_at-even :
      (xs : List Hash) (i : ℕ) (h : Hash)
      → get_elem? xs i ≡ some h
      → i % 2 ≡ 0
      → op_at xs i ≡ record { append = true; commitment = get_or (get_elem? xs (i + 1)) h }
  op_at-even [] i h e p = cc
  op_at-even (x ∷ []) zero h e p = ground arith
  op_at-even (x ∷ []) (suc i) h e p = cc
  op_at-even (x ∷ y ∷ r) zero h e p = refl
  op_at-even (x ∷ y ∷ r) (suc zero) h e p = absurd (omega arith)
  op_at-even (x ∷ y ∷ r) (suc (suc i)) h e p =
      let z : suc (suc i) + 1 ≡ suc (suc (i + 1)) = omega arith in
      rw z (op_at-even r i h e (omega arith))

  pub op_at-odd :
      (xs : List Hash) (i : ℕ) (h : Hash)
      → get_elem? xs i ≡ some h
      → i % 2 ≡ 1
      → (l : Hash) × (get_elem? xs (i - 1) ≡ some l)
        × (op_at xs i ≡ record { append = false; commitment = l })
  op_at-odd [] i h e p = cc
  op_at-odd (x ∷ []) zero h e p = absurd (omega arith)
  op_at-odd (x ∷ []) (suc i) h e p = cc
  op_at-odd (x ∷ y ∷ r) zero h e p = absurd (omega arith)
  op_at-odd (x ∷ y ∷ r) (suc zero) h e p = (x, refl, refl)
  op_at-odd (x ∷ y ∷ r) (suc (suc zero)) h e p = absurd (omega arith)
  op_at-odd (x ∷ y ∷ r) (suc (suc (suc i))) h e p =
      let (l, q, s) = op_at-odd r (suc i) h e (omega arith) in
      let z : suc (suc (suc i)) - 1 ≡ suc (suc i) = omega arith in
      let w : suc i - 1 ≡ i = omega arith in (l, rw z (rw w at q), s)
