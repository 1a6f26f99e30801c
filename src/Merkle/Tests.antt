-- ===== src/Merkle/Tests.antt =====
-- Runs of the merkle code over the toy hashing, and the theorems of Merkle at concrete inputs.
use mainstay.Prelude.{
  ℕ, ◌≡◌, refl, arith, ◌⊎◌, true, false, none, some, List, [], ◌∷◌, length, get_elem?,
}
use mainstay.Prelude.Int.{pos, wrap32}
use mainstay.Hashing.Toy.{toy_hashing}
use mainstay.Merkle.Tree.{
  next_pow, log2, hash_leaves, copy_leaves, parent_of, fill_parents, build_merkle_tree, deref,
  new_commitment_merkle_tree,
}
use mainstay.Merkle.Levels.{levels}
use mainstay.Merkle.Build.{build_merkle_tree-levels}
use mainstay.Merkle.Proof.{
  CommitmentMerkleProof, empty_proof, build_merkle_proof, prove_merkle_proof, proof_loop,
}
use mainstay.Merkle.Commitment.{
  Commitment, created, commitment_list_empty, new_commitment, get_commitment_hash,
  get_merkle_proofs,
}
use mainstay.Merkle.Correct.{build_merkle_proof-none}
use mainstay.Merkle.Attested.{IsTreeOf, Shows, new_commitment_total, get_merkle_proofs_show}
use mainstay.Merkle.Binding.{Collision, prove_merkle_proof-binding, accepted_shows_leaf}

abbrev three : List ℕ
three = 1 ∷ 2 ∷ 3 ∷ []

abbrev three_commitment : Commitment ℕ
three_commitment = record {
  tree = record {
    commitments = three;
    tree_store = some 1 ∷ some 2 ∷ some 3 ∷ none ∷ some 40 ∷ some 103 ∷ some 1350 ∷ [];
    root = 1350;
  };
}

three-created : new_commitment three ≡ some (created three_commitment)
unfolding new_commitment new_commitment_merkle_tree build_merkle_tree copy_leaves fill_parents
    parent_of hash_leaves next_pow log2
three-created = refl

-- The proof of the hash 3, whose right neighbour is nil.
abbrev proof_of_three : CommitmentMerkleProof ℕ
proof_of_three = record {
  merkle_root = 1350;
  client_position = pos 2;
  commitment = 3;
  ops = record { append = true; commitment = 3 } ∷ record { append = false; commitment = 40 } ∷ [];
}

built : build_merkle_proof 2 three_commitment.tree.tree_store ≡ some proof_of_three
unfolding build_merkle_proof proof_loop deref wrap32
built = refl

accepted : prove_merkle_proof proof_of_three ≡ true
unfolding prove_merkle_proof hash_leaves
accepted = refl

build_merkle_tree-levels_example : build_merkle_tree three ≡ some (levels 2 three)
unfolding next_pow log2
build_merkle_tree-levels_example = build_merkle_tree-levels 2 three refl (omega arith)

build_merkle_proof-none_example : build_merkle_proof 3 (levels 2 three) ≡ some empty_proof
build_merkle_proof-none_example = build_merkle_proof-none 2 three 3 (omega arith) refl

new_commitment_total_example :
    ((three ≡ []) × (new_commitment three ≡ some commitment_list_empty))
    ⊎ ((k : ℕ) × (commitment : Commitment ℕ) × (new_commitment three ≡ some (created commitment))
        × IsTreeOf three k commitment.tree)
new_commitment_total_example = new_commitment_total three

get_merkle_proofs_show_example :
    (proofs : List (CommitmentMerkleProof ℕ)) × (get_merkle_proofs three_commitment ≡ some proofs)
    × (length proofs ≡ 3)
    × (p : CommitmentMerkleProof ℕ) × (get_elem? proofs 2 ≡ some p)
    × Shows three_commitment 2 3 p
get_merkle_proofs_show_example =
    get_merkle_proofs_show three three_commitment 2 3 three-created refl

prove_merkle_proof-binding_example :
    ((proof_of_three.commitment ≡ 3) × (proof_of_three.ops ≡ proof_of_three.ops)) ⊎ Collision ℕ
prove_merkle_proof-binding_example =
    prove_merkle_proof-binding proof_of_three proof_of_three accepted accepted refl refl

accepted_shows_leaf_example : (proof_of_three.commitment ≡ 3) ⊎ Collision ℕ
unfolding next_pow log2 get_commitment_hash
accepted_shows_leaf_example =
    accepted_shows_leaf three three_commitment 2 2 3 proof_of_three three-created refl refl accepted
      refl refl
