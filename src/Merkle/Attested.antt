-- ===== src/Merkle/Attested.antt =====
-- What a Commitment promises: the reference tree over its hashes, and for each hash a proof that
-- ProveMerkleProof accepts.
use mathlib.Core.List.{append_assoc}
use mathlib.Core.Path.{subst}
use mainstay.Prelude.{
  ℕ, zero, suc, ◌+◌, ◌≤◌, ◌<◌, ◌≡◌, refl, ap, arith, ◌⊎◌, inl, inr, some, true, List, [], ◌∷◌, ◌++◌,
  length, get_elem?, length-append, get_elem?-append_right, ◌*◌, ◌-◌,
}
use mathlib.Core.Option.{some-injective}
use mainstay.Prelude.Int.{pos, wrap32}
use mainstay.Prelude.Power.{pow2, twice-eq}
use mainstay.Hashing.{Hashing}
use mainstay.Merkle.Tree.{CommitmentMerkleTree, next_pow, new_commitment_merkle_tree}
use mainstay.Merkle.Power.{next_pow-IsLeast}
use mainstay.Merkle.Levels.{next_level, levels, root_of, length-levels}
use mainstay.Merkle.Build.{build_merkle_tree-levels}
use mainstay.Merkle.Proof.{
  CommitmentMerkleProof, build_merkle_proof, prove_merkle_proof, proofs_from,
}
use mainstay.Merkle.Proof
use mainstay.Merkle.Correct.{last-levels, proof_of, build_merkle_proof-levels, proof_of-accepted}
use mainstay.Merkle.Commitment.{
  Commitment, created, commitment_list_empty, new_commitment, get_commitment_hash,
  get_merkle_proofs,
}

module _ {Hash : Type 0} ⦃c : Hashing Hash⦄ where
  root_of-some : (k : ℕ) (x : Hash) (xs : List Hash) → (r : Hash) × (root_of k (x ∷ xs) ≡ some r)
  root_of-some zero x xs = (x, refl)
  root_of-some (suc k) x [] = root_of-some k _ []
  root_of-some (suc k) x (y ∷ r) = root_of-some k _ (next_level r)

  -- The commitment holds the hashes, the reference tree of 2 ^ k leaves over them, and its root.
  pub record IsTreeOf (hashes : List Hash) (k : ℕ) (t : CommitmentMerkleTree Hash) : Type 0 where
    pub same : t.commitments ≡ hashes
    pub stored : t.tree_store ≡ levels k hashes
    pub top : root_of k hashes ≡ some t.root
    pub fits : length hashes ≤ pow2 k
    pub size : next_pow (length hashes) ≡ pow2 k

  tree_of :
      (x : Hash) (xs : List Hash)
      → (k : ℕ) × (t : CommitmentMerkleTree Hash) × (new_commitment_merkle_tree (x ∷ xs) ≡ some t)
        × IsTreeOf (x ∷ xs) k t
  unfolding new_commitment_merkle_tree
  tree_of x xs =
      let hashes = x ∷ xs in
      let (j, e, fits, _) = next_pow-IsLeast (length hashes) (omega arith) in
      let k = suc j in
      let (r, top) = root_of-some k x xs in
      let size : 2 * next_pow (length hashes) - 1 - 1 ≡ length (levels k hashes) - 1 =
        omega (arith, length-levels k hashes, twice-eq (pow2 k)) in
      (
        k,
        record { commitments = hashes; tree_store = levels k hashes; root = r },
        rw (build_merkle_tree-levels k hashes e fits, size, last-levels k hashes, top),
        record { same = refl; stored = refl; top = top; fits = fits; size = e },
      )

  -- NewCommitment reports an empty list, and succeeds on every other one, without a panic: it then
  -- holds the hashes, the reference tree over them and its root.
  pub new_commitment_total :
      (hashes : List Hash)
      → ((hashes ≡ []) × (new_commitment hashes ≡ some commitment_list_empty))
        ⊎ ((k : ℕ) × (commitment : Commitment Hash) × (new_commitment hashes
              ≡ some (created commitment))
            × IsTreeOf hashes k commitment.tree)
  unfolding new_commitment
  new_commitment_total [] = inl (refl, refl)
  new_commitment_total (x ∷ xs) =
      let (k, t, e, v) = tree_of x xs in inr (k, record { tree = t }, rw e, v)

  -- The proof p shows the hash h at position i of the commitment.
  pub record Shows (commitment : Commitment Hash) (i : ℕ) (h : Hash)
      (p : CommitmentMerkleProof Hash) : Type 0 where
    pub accepted : prove_merkle_proof p ≡ true
    pub hash : p.commitment ≡ h
    pub root : p.merkle_root ≡ get_commitment_hash commitment
    pub position : p.client_position ≡ wrap32 (pos i)

  abbrev proof_list : ℕ → List Hash → Hash → ℕ → List Hash → List (CommitmentMerkleProof Hash)
  proof_list k all root i [] = []
  proof_list k all root i (h ∷ r) = proof_of k all root i h ∷ proof_list k all root (i + 1) r

  length-proof_list :
      (k : ℕ) (all : List Hash) (root : Hash) (i : ℕ) (rest : List Hash)
      → length (proof_list k all root i rest) ≡ length rest
  length-proof_list k all root i [] = refl
  length-proof_list k all root i (h ∷ r) = ap suc (length-proof_list k all root (i + 1) r)

  get_elem?-proof_list :
      (k : ℕ) (all : List Hash) (root : Hash) (i j n : ℕ) (rest : List Hash) (h : Hash)
      → n ≡ i + j
      → get_elem? rest j ≡ some h
      → get_elem? (proof_list k all root i rest) j ≡ some (proof_of k all root n h)
  get_elem?-proof_list k all root i j n [] h e at = cc
  get_elem?-proof_list k all root i zero n (x ∷ r) h e at =
      let z : n ≡ i = omega arith in
      rw z (ap (λ t. some (proof_of k all root i t)) (some-injective x h at))
  get_elem?-proof_list k all root i (suc j) n (x ∷ r) h e at =
      get_elem?-proof_list k all root (i + 1) j n r h (omega arith) at

  proofs_from-eq :
      (k : ℕ) (root : Hash) (i : ℕ) (before rest : List Hash)
      → i ≡ length before
      → length (before ++ rest) ≤ pow2 k
      → root_of k (before ++ rest) ≡ some root
      → proofs_from i rest (levels k (before ++ rest))
        ≡ some (proof_list k (before ++ rest) root i rest)
  unfolding proofs_from
  proofs_from-eq k root i before [] e fits top = refl
  proofs_from-eq k root i before (h ∷ r) e fits top =
      let all = before ++ h ∷ r in
      let z : i ≡ length before + 0 = omega arith in
      let at : get_elem? all i ≡ some h = rw z (get_elem?-append_right before (h ∷ r) 0) in
      let moved : (before ++ h ∷ []) ++ r ≡ all = append_assoc before (h ∷ []) r in
      let inside : i < pow2 k = omega (arith, length-append before (h ∷ r)) in
      let rest = rw moved at (
        proofs_from-eq k root (i + 1) (before ++ h ∷ []) r
          (omega (arith, length-append before (h ∷ []))) (rw moved fits) (rw moved top)) in
      rw (build_merkle_proof-levels k all i h root inside at top, rest)

  pub created-IsTreeOf :
      (hashes : List Hash) (commitment : Commitment Hash)
      → new_commitment hashes ≡ some (created commitment)
      → (k : ℕ) × IsTreeOf hashes k commitment.tree
  created-IsTreeOf hashes commitment e = elim (new_commitment_total hashes) [
    | inl (_, refused) ↦ cc
    | inr (k, made, e', v) ↦ (k, subst (λ (m : Commitment Hash). IsTreeOf hashes k m.tree) (cc) v)
  ]

  -- GetMerkleProofs of a commitment that NewCommitment made returns, without a panic, one proof
  -- for each hash: at each position i the proof shows the hash i, and ProveMerkleProof accepts it.
  pub get_merkle_proofs_show :
      (hashes : List Hash) (commitment : Commitment Hash) (i : ℕ) (h : Hash)
      → new_commitment hashes ≡ some (created commitment)
      → get_elem? hashes i ≡ some h
      → (proofs : List (CommitmentMerkleProof Hash)) × (get_merkle_proofs commitment ≡ some proofs)
        × (length proofs ≡ length hashes)
        × (p : CommitmentMerkleProof Hash) × (get_elem? proofs i ≡ some p)
        × Shows commitment i h p
  unfolding get_merkle_proofs Proof.get_merkle_proofs get_commitment_hash
  get_merkle_proofs_show hashes commitment i h e at =
      let (k, v) = created-IsTreeOf hashes commitment e in
      let root = commitment.tree.root in
      (
        proof_list k hashes root 0 hashes,
        rw (v.same, v.stored) (proofs_from-eq k root 0 [] hashes refl v.fits v.top),
        length-proof_list k hashes root 0 hashes,
        proof_of k hashes root i h,
        get_elem?-proof_list k hashes root 0 i i hashes h (omega arith) at,
        record {
          accepted = proof_of-accepted k hashes i h root v.fits at v.top;
          hash = refl;
          root = refl;
          position = refl;
        },
      )
