-- ===== src/Merkle/Proof.antt =====
-- models/commitmentmerkleproof.go: the proof that a commitment stands in the tree, and its
-- verification. Logging and the BSON encoding are left out.
use mainstay.Prelude.{
  ℕ, zero, suc, ◌+◌, ◌-◌, ◌/◌, ◌%◌, Bool, true, false, Option, none, some, List, [], ◌∷◌, ◌++◌,
  ◌==◌, if◌then◌else◌, get_elem?, length, ltb, leb,
}
use mainstay.Prelude.Int.{ℤ, pos, wrap32}
use mainstay.Prelude.Panic.{◌>>=◌}
use mainstay.Hashing.{Hashing}
use mainstay.Merkle.Tree.{hash_leaves, deref, CommitmentMerkleTree}

pub record CommitmentMerkleProofOp (Hash : Type 0) : Type 0 where
  pub append : Bool
  pub commitment : Hash

pub record CommitmentMerkleProof (Hash : Type 0) : Type 0 where
  pub merkle_root : Hash
  pub client_position : ℤ
  pub commitment : Hash
  pub ops : List (CommitmentMerkleProofOp Hash)

module _ {Hash : Type 0} ⦃c : Hashing Hash⦄ where
  -- The zero value `CommitmentMerkleProof{}`.
  unfoldable pub empty_proof : CommitmentMerkleProof Hash
  empty_proof = record {
    merkle_root = c.zero_hash;
    client_position = pos 0;
    commitment = c.zero_hash;
    ops = [];
  }

  -- The op of one tree height.
  unfoldable pub proof_op : List (Option Hash) → ℕ → Option (CommitmentMerkleProofOp Hash)
  unfolding deref
  proof_op tree proof_index =
      if proof_index % 2 == 0
      then (get_elem? tree (proof_index + 1) >>= λ right. elim right [
        | none ↦ deref tree proof_index >>= λ h. some (record { append = true; commitment = h })
        | some h ↦ some (record { append = true; commitment = h })
      ])
      else deref tree (proof_index - 1) >>= λ h. some (record { append = false; commitment = h })

  -- `for depth > 1`, on fuel: depth is halved in each round, so a fuel of depth is enough.
  unfoldable pub proof_loop :
      ℕ
      → ℕ
      → ℕ
      → ℕ
      → ℕ
      → List (Option Hash)
      → List (CommitmentMerkleProofOp Hash)
      → Option (List (CommitmentMerkleProofOp Hash))
  unfolding proof_op
  proof_loop zero offset depth depth_position proof_index tree ops = none
  proof_loop (suc fuel) offset depth depth_position proof_index tree ops =
      let offset' = offset + depth in
      let depth' = depth / 2 in
      let depth_position' = depth_position / 2 in
      let round = proof_op tree proof_index >>= λ op.
      proof_loop fuel offset' depth' depth_position' (offset' + depth_position' % depth') tree
        (ops ++ op ∷ []) in
      if ltb 1 depth then round else some ops

  -- The rest of the function, for a position that holds the commitment.
  unfoldable pub finish_proof :
      ℕ → ℕ → Hash → List (Option Hash) → Option (CommitmentMerkleProof Hash)
  finish_proof num position commitment tree =
      proof_loop (num + 1) 0 num position position tree [] >>= λ ops.
      deref tree (length tree - 1) >>= λ root. some (record {
        merkle_root = root;
        client_position = wrap32 (pos position);
        commitment = commitment;
        ops = ops;
      })

  unfoldable pub build_merkle_proof : ℕ → List (Option Hash) → Option (CommitmentMerkleProof Hash)
  unfolding finish_proof deref empty_proof
  build_merkle_proof position tree =
      let num_of_commitments = length tree / 2 + 1 in
      if leb num_of_commitments position
      then some empty_proof
      else get_elem? tree position >>= λ leaf. elim leaf [
        | none ↦ some empty_proof
        | some h ↦ finish_proof num_of_commitments position h tree
      ]

  -- The loop of `ProveMerkleProof` over the ops.
  unfoldable pub apply_ops : Hash → List (CommitmentMerkleProofOp Hash) → Hash
  apply_ops hash [] = hash
  apply_ops hash (op ∷ ops) =
      apply_ops
        (if op.append then hash_leaves hash op.commitment else hash_leaves op.commitment hash) ops

  unfoldable pub prove_merkle_proof : CommitmentMerkleProof Hash → Bool
  unfolding apply_ops
  prove_merkle_proof proof = c.beq (apply_ops proof.commitment proof.ops) proof.merkle_root

  -- The loop of `getMerkleProofs`, from the index i on.
  unfoldable pub proofs_from :
      ℕ → List Hash → List (Option Hash) → Option (List (CommitmentMerkleProof Hash))
  proofs_from i [] tree = some []
  proofs_from i (_ ∷ rest) tree = build_merkle_proof i tree >>= λ proof.
      proofs_from (i + 1) rest tree >>= λ proofs. some (proof ∷ proofs)

  unfoldable pub get_merkle_proofs :
      CommitmentMerkleTree Hash → Option (List (CommitmentMerkleProof Hash))
  unfolding proofs_from
  get_merkle_proofs m = proofs_from 0 m.commitments m.tree_store
