-- ===== src/Merkle/Correct.antt =====
-- The proofs that buildMerkleProof makes from the store of buildMerkleTree.
use mainstay.Prelude.{
  ℕ, zero, suc, ◌+◌, ◌-◌, ◌/◌, ◌≤◌, ◌<◌, ◌≡◌, refl, sym, ◌∙◌, arith, none, some, true, false, List,
  [], ◌∷◌, ◌++◌, length, get_elem?, length-append, get_elem?-append_right, leb, dec_lt,
}
use mathlib.Core.Option.{some-injective}
use mainstay.Prelude.Int.{pos, wrap32}
use mainstay.Prelude.Power.{pow2, twice-eq, pow2-pos}
use mainstay.Hashing.{Hashing}
use mainstay.Merkle.Tree.{deref}
use mainstay.Merkle.Levels.{pad, next_level, levels, root_of, get_elem?-pad, length-levels}
use mainstay.Merkle.Proof.{
  CommitmentMerkleProof, empty_proof, build_merkle_proof, prove_merkle_proof,
}
use mainstay.Merkle.Path.{path, apply_ops-path}
use mainstay.Merkle.Ops.{proof_loop-path}

lt-pow2 : (k : ℕ) → k < pow2 k
lt-pow2 zero = omega arith
lt-pow2 (suc k) = omega (arith, lt-pow2 k, twice-eq (pow2 k))

module _ {Hash : Type 0} ⦃c : Hashing Hash⦄ where
  -- The last entry of the store is the root.
  pub last-levels :
      (k : ℕ) (xs : List Hash) → deref (levels k xs) (length (levels k xs) - 1) ≡ root_of k xs
  unfolding deref
  last-levels zero [] = refl
  last-levels zero (x ∷ xs) = refl
  last-levels (suc k) xs =
      let row = pad (pow2 (suc k)) xs in
      let rest = levels k (next_level xs) in
      let last : length (row ++ rest) - 1 ≡ length row + (length rest - 1) = omega (
        arith,
        length-append row rest,
        length-levels k (next_level xs),
        pow2-pos k,
        twice-eq (pow2 k),
      ) in
      rw (last, get_elem?-append_right row rest (length rest - 1)) (last-levels k (next_level xs))

  leaf-levels :
      (k : ℕ) (xs : List Hash) (i : ℕ)
      → i < pow2 k
      → get_elem? (levels k xs) i ≡ some (get_elem? xs i)
  leaf-levels zero [] zero h = refl
  leaf-levels zero (x ∷ xs) zero h = refl
  leaf-levels zero xs (suc i) h = absurd (omega arith)
  leaf-levels (suc k) xs i h = get_elem?-pad (pow2 (suc k)) xs (levels k (next_level xs)) i h

  -- The proof of a leaf.
  abbrev pub proof_of : ℕ → List Hash → Hash → ℕ → Hash → CommitmentMerkleProof Hash
  proof_of k xs root i h = record {
    merkle_root = root;
    client_position = wrap32 (pos i);
    commitment = h;
    ops = path k xs i;
  }

  pub build_merkle_proof-levels :
      (k : ℕ) (xs : List Hash) (i : ℕ) (h root : Hash)
      → i < pow2 k
      → get_elem? xs i ≡ some h
      → root_of k xs ≡ some root
      → build_merkle_proof i (levels k xs) ≡ some (proof_of k xs root i h)
  unfolding build_merkle_proof
  build_merkle_proof-levels k xs i h root inside leaf top =
      let num : length (levels k xs) / 2 + 1 ≡ pow2 k =
        omega (arith, length-levels k xs, twice-eq (pow2 k)) in
      let within : leb (pow2 k) i ≡ false = ground arith in
      rw (num, within, leaf-levels k xs i inside, leaf)
        (rw (
          num,
          proof_loop-path k (pow2 k + 1) 0 i i [] xs h [] (omega (arith, lt-pow2 k)) refl refl
              (omega arith) inside leaf,
          last-levels k xs,
          top,
        ))

  -- On the reference store over at most 2 ^ k hashes, a position that holds no hash, out of
  -- range or padded, gives the empty proof without a panic.
  pub build_merkle_proof-none :
      (k : ℕ) (xs : List Hash) (i : ℕ)
      → length xs ≤ pow2 k
      → get_elem? xs i ≡ none
      → build_merkle_proof i (levels k xs) ≡ some empty_proof
  unfolding build_merkle_proof
  build_merkle_proof-none k xs i size leaf =
      let num : length (levels k xs) / 2 + 1 ≡ pow2 k =
        omega (arith, length-levels k xs, twice-eq (pow2 k)) in
      elim (dec_lt i (pow2 k)) [
        | yes inside ↦
            let within : leb (pow2 k) i ≡ false = ground arith in
            rw (num, within, leaf-levels k xs i inside, leaf)
        | no outside ↦ let beyond : leb (pow2 k) i ≡ true = ground arith in rw (num, beyond)
      ]

  -- The proof of a leaf is accepted.
  pub proof_of-accepted :
      (k : ℕ) (xs : List Hash) (i : ℕ) (h root : Hash)
      → length xs ≤ pow2 k
      → get_elem? xs i ≡ some h
      → root_of k xs ≡ some root
      → prove_merkle_proof (proof_of k xs root i h) ≡ true
  unfolding prove_merkle_proof
  proof_of-accepted k xs i h root size leaf top =
      (c.beq_iff _ _).1 (some-injective _ _ (sym (apply_ops-path k xs i h size leaf) ∙ top))
