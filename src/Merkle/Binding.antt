-- ===== src/Merkle/Binding.antt =====
-- What an accepted merkle proof is worth: against the root of a tree, and along the directions of
-- one position, it shows the hash at that position, or two inputs of the hash function collide.
use mainstay.Prelude.{
  ℕ, zero, suc, ◌≡◌, ◌≢◌, refl, sym, ap, ◌∙◌, ◌⊎◌, inl, inr, arith, Bool, true, some, List, [], ◌∷◌,
  ◌/◌, ◌%◌, ◌==◌, length, get_elem?, Bool-cases,
}
use mainstay.Hashing.{Hashing}
use mainstay.Merkle.Tree.{hash_leaves}
use mainstay.Merkle.Proof.{
  CommitmentMerkleProof, CommitmentMerkleProofOp, prove_merkle_proof, apply_ops,
}
use mainstay.Prelude.Power.{pow2, pow2-inj}
use mainstay.Merkle.Tree.{next_pow}
use mainstay.Merkle.Levels.{next_level}
use mainstay.Merkle.Path.{apply_op, op_at, path, next_level-op_at}
use mainstay.Merkle.Commitment.{Commitment, created, new_commitment, get_commitment_hash}
use mainstay.Merkle.Correct.{proof_of, proof_of-accepted}
use mainstay.Merkle.Attested.{created-IsTreeOf}

module _ {Hash : Type 0} ⦃c : Hashing Hash⦄ where
  -- Two pairs of hashes with one hash.
  pub record IsCollision (a b a' b' : Hash) : Type 0 where
    pub same : hash_leaves a b ≡ hash_leaves a' b'
    pub differ : (a ≢ a') ⊎ (b ≢ b')

abbrev pub Collision : (Hash : Type 0) ⦃c : Hashing Hash⦄ → Type 0
Collision Hash = (a : Hash) × (b : Hash) × (a' : Hash) × (b' : Hash) × IsCollision a b a' b'

abbrev pub directions : {Hash : Type 0} → List (CommitmentMerkleProofOp Hash) → List Bool
directions [] = []
directions (op ∷ ops) = op.append ∷ directions ops

-- The directions of a position, from the leaves to the root: true at a left child.
abbrev pub position_bits : ℕ → ℕ → List Bool
position_bits zero i = []
position_bits (suc k) i = (i % 2 == 0) ∷ position_bits k (i / 2)

module _ {Hash : Type 0} ⦃c : Hashing Hash⦄ where
  beq-cases : (a b : Hash) → (a ≡ b) ⊎ (a ≢ b)
  beq-cases a b = elim (Bool-cases (c.beq a b)) [
    | inl same ↦ inl ((c.beq_iff a b).0 same)
    | inr other ↦ inr (λ e. cc ((c.beq_iff a b).1 e))
  ]

  hash_leaves-inj :
      (a b a' b' : Hash)
      → hash_leaves a b ≡ hash_leaves a' b'
      → ((a ≡ a') × (b ≡ b')) ⊎ Collision Hash
  hash_leaves-inj a b a' b' e = elim (beq-cases a a') [
    | inr d ↦ inr (a, b, a', b', record { same = e; differ = inl d })
    | inl p ↦ elim (beq-cases b b') [
      | inr d ↦ inr (a, b, a', b', record { same = e; differ = inr d })
      | inl q ↦ inl (p, q)
    ]
  ]

  apply_op-inj :
      (h h' : Hash) (o o' : CommitmentMerkleProofOp Hash)
      → o.append ≡ o'.append
      → apply_op h o ≡ apply_op h' o'
      → ((h ≡ h') × (o ≡ o')) ⊎ Collision Hash
  apply_op-inj h h' o o' d e = elim (Bool-cases o.append) [
    | inl after ↦ elim (hash_leaves-inj h o.commitment h' o'.commitment (ground arith)) [
      | inl (p, q) ↦ inl (p, ground arith)
      | inr found ↦ inr found
    ]
    | inr before ↦ elim (hash_leaves-inj o.commitment h o'.commitment h' (ground arith)) [
      | inl (p, q) ↦ inl (q, ground arith)
      | inr found ↦ inr found
    ]
  ]

  apply_ops-inj :
      (ops ops' : List (CommitmentMerkleProofOp Hash)) (h h' : Hash)
      → directions ops ≡ directions ops'
      → apply_ops h ops ≡ apply_ops h' ops'
      → ((h ≡ h') × (ops ≡ ops')) ⊎ Collision Hash
  unfolding apply_ops
  apply_ops-inj [] [] h h' d e = inl (e, refl)
  apply_ops-inj [] (o' ∷ ops') h h' d e = cc
  apply_ops-inj (o ∷ ops) [] h h' d e = cc
  apply_ops-inj (o ∷ ops) (o' ∷ ops') h h' d e =
      elim (apply_ops-inj ops ops' (apply_op h o) (apply_op h' o') (cc) e) [
        | inr found ↦ inr found
        | inl (p, q) ↦ elim (apply_op-inj h h' o o' (cc) p) [
          | inr found ↦ inr found
          | inl (s, t) ↦ inl (s, cc)
        ]
      ]

  -- Two accepted proofs with one root and the same directions agree in their commitment and in
  -- every op, or two different pairs of hashes have the same hash.
  pub prove_merkle_proof-binding :
      (p p' : CommitmentMerkleProof Hash)
      → prove_merkle_proof p ≡ true
      → prove_merkle_proof p' ≡ true
      → p.merkle_root ≡ p'.merkle_root
      → directions p.ops ≡ directions p'.ops
      → ((p.commitment ≡ p'.commitment) × (p.ops ≡ p'.ops)) ⊎ Collision Hash
  unfolding prove_merkle_proof
  prove_merkle_proof-binding p p' a a' root d =
      apply_ops-inj p.ops p'.ops p.commitment p'.commitment d
        ((c.beq_iff _ _).0 a ∙ root ∙ sym ((c.beq_iff _ _).0 a'))

  op_at-append :
      (xs : List Hash) (i : ℕ) (h : Hash)
      → get_elem? xs i ≡ some h
      → (op_at xs i).append ≡ (i % 2 == 0)
  op_at-append [] i h e = cc
  op_at-append (x ∷ []) zero h e = refl
  op_at-append (x ∷ []) (suc i) h e = cc
  op_at-append (x ∷ y ∷ r) zero h e = refl
  op_at-append (x ∷ y ∷ r) (suc zero) h e = refl
  op_at-append (x ∷ y ∷ r) (suc (suc i)) h e =
      let z : suc (suc i) % 2 ≡ i % 2 = omega arith in rw z (op_at-append r i h e)

  directions-path :
      (k : ℕ) (xs : List Hash) (i : ℕ) (h : Hash)
      → get_elem? xs i ≡ some h
      → directions (path k xs i) ≡ position_bits k i
  directions-path zero xs i h e = refl
  directions-path (suc k) xs i h e = rw (op_at-append xs i h e) (
      ap (◌∷◌ (i % 2 == 0)) (
        directions-path k (next_level xs) (i / 2) (apply_op h (op_at xs i))
          (next_level-op_at xs i h e)))

  -- For a commitment made from hashes, in a tree of 2 ^ k leaves, an accepted proof with its
  -- root, whose directions are those of position i, shows the hash at position i, or two
  -- different pairs of hashes have the same hash.
  pub accepted_shows_leaf :
      (hashes : List Hash) (commitment : Commitment Hash) (k i : ℕ) (h : Hash)
      (p : CommitmentMerkleProof Hash)
      → new_commitment hashes ≡ some (created commitment)
      → next_pow (length hashes) ≡ pow2 k
      → get_elem? hashes i ≡ some h
      → prove_merkle_proof p ≡ true
      → p.merkle_root ≡ get_commitment_hash commitment
      → directions p.ops ≡ position_bits k i
      → (p.commitment ≡ h) ⊎ Collision Hash
  unfolding get_commitment_hash
  accepted_shows_leaf hashes commitment k i h p e size at accepted root d =
      let (j, v) = created-IsTreeOf hashes commitment e in
      let same : j ≡ k = pow2-inj j k (sym v.size ∙ size) in
      let own = proof_of j hashes commitment.tree.root i h in
      let bits : directions (path j hashes i) ≡ position_bits k i =
        rw same (directions-path k hashes i h at) in
      elim (prove_merkle_proof-binding p own accepted
        (proof_of-accepted j hashes i h commitment.tree.root v.fits at v.top) root (d ∙ sym bits)) [
          | inl (found, _) ↦ inl found
          | inr collision ↦ inr collision
        ]
