-- ===== src/Merkle/Commitment.antt =====
-- models/commitment.go: a non-empty list of client commitments with its merkle tree.
use mainstay.Prelude.{ℕ, ◌+◌, Option, some, List, [], ◌∷◌}
use mainstay.Prelude.Int.{ℤ, pos, wrap32}
use mainstay.Prelude.Panic.{◌>>=◌}
use mainstay.Hashing.{Hashing}
use mainstay.Merkle.Tree.{CommitmentMerkleTree, new_commitment_merkle_tree}
use mainstay.Merkle.Proof.{CommitmentMerkleProof}
use mainstay.Merkle.Proof

pub record Commitment (Hash : Type 0) : Type 0 where
  pub tree : CommitmentMerkleTree Hash

pub record CommitmentMerkleCommitment (Hash : Type 0) : Type 0 where
  pub merkle_root : Hash
  pub client_position : ℤ
  pub commitment : Hash

-- The results of `NewCommitment`; a panic is the `none` around them.
pub data NewResult (Hash : Type 0) : Type 0 where
  created : Commitment Hash → NewResult Hash
  commitment_list_empty : NewResult Hash

module _ {Hash : Type 0} ⦃c : Hashing Hash⦄ where
  unfoldable pub new_commitment : List Hash → Option (NewResult Hash)
  new_commitment [] = some commitment_list_empty
  new_commitment (x ∷ xs) =
      new_commitment_merkle_tree (x ∷ xs) >>= λ tree. some (created (record { tree = tree }))

  unfoldable pub get_commitment_hash : Commitment Hash → Hash
  get_commitment_hash commitment = commitment.tree.root

  unfoldable pub get_merkle_proofs : Commitment Hash → Option (List (CommitmentMerkleProof Hash))
  get_merkle_proofs commitment = Proof.get_merkle_proofs commitment.tree

  -- The loop of `GetMerkleCommitments`, from the position i on.
  unfoldable pub commitments_from : Hash → ℕ → List Hash → List (CommitmentMerkleCommitment Hash)
  commitments_from root i [] = []
  commitments_from root i (x ∷ xs) =
      record { merkle_root = root; client_position = wrap32 (pos i); commitment = x }
      ∷ commitments_from root (i + 1) xs

  unfoldable pub get_merkle_commitments : Commitment Hash → List (CommitmentMerkleCommitment Hash)
  unfolding commitments_from get_commitment_hash
  get_merkle_commitments commitment =
      commitments_from (get_commitment_hash commitment) 0 commitment.tree.commitments
