-- ===== src/Merkle/Ops.antt =====
-- The loop of buildMerkleProof reads the path of a leaf off the store.
use mathlib.Core.List.{append-nil, append_assoc}
use mathlib.Core.Option.{get_or}
use native.Mathlib.Nat.{mod-eq_of_lt}
use mainstay.Prelude.{
  ℕ, zero, suc, ◌+◌, ◌-◌, ◌/◌, ◌%◌, ◌<◌, ◌≡◌, refl, sym, ap, ◌∙◌, arith, Option, none, some, true,
  false, List, [], ◌∷◌, ◌++◌, ◌==◌, length, get_elem?, length-append, get_elem?-append_right, ltb,
  ℕ_discrete,
}
use mainstay.Prelude.Panic.{◌>>=◌}
use mainstay.Prelude.Power.{twice, pow2, twice-eq, pow2-pos}
use mainstay.Hashing.{Hashing}
use mainstay.Merkle.Tree.{deref}
use mainstay.Merkle.Levels.{pad, next_level, levels, length-pad, get_elem?-pad}
use mainstay.Merkle.Proof.{CommitmentMerkleProofOp, proof_op, proof_loop}
use mainstay.Merkle.Path.{op_at, path, apply_op, op_at-even, op_at-odd, next_level-op_at}

abbrev appended : {Hash : Type 0} → Hash → CommitmentMerkleProofOp Hash
appended h = record { append = true; commitment = h }

module _ {Hash : Type 0} ⦃c : Hashing Hash⦄ where
  -- An entry of the level that stands behind a prefix of the store.
  read :
      (p : List (Option Hash)) (n : ℕ) (xs : List Hash) (rest : List (Option Hash)) (j i : ℕ)
      → j ≡ length p + i
      → i < n
      → get_elem? (p ++ (pad n xs ++ rest)) j ≡ some (get_elem? xs i)
  read p n xs rest j i e h =
      rw e (get_elem?-append_right p (pad n xs ++ rest) i ∙ get_elem?-pad n xs rest i h)

  module _ (p : List (Option Hash)) (m : ℕ) (xs : List Hash) (rest : List (Option Hash)) (j i : ℕ)
      (h : Hash) (at : j ≡ length p + i) (even_prefix : length p % 2 ≡ 0) (inside : i < twice m)
      (leaf : get_elem? xs i ≡ some h) where
    abbrev tree : List (Option Hash)
    tree = p ++ (pad (twice m) xs ++ rest)

    here : deref tree j ≡ some h
    unfolding deref
    here = rw (read p (twice m) xs rest j i at inside) leaf

    proof_op-even : i % 2 ≡ 0 → proof_op tree j ≡ some (op_at xs i)
    unfolding proof_op
    proof_op-even even =
        let test : (j % 2 == 0) ≡ true = ground arith in
        let next =
          read p (twice m) xs rest (j + 1) (i + 1) (omega arith) (omega (arith, twice-eq m)) in
        rw (test, next)
          (cases (get_elem? xs (i + 1)) ∙ ap (λ o. some o) (sym (op_at-even xs i h leaf even)))
      where
        cases :
            (r : Option Hash)
            → elim r [
              | none ↦ deref tree j >>= λ h'. some (appended h')
              | some h' ↦ some (appended h')
            ]
              ≡ some (appended (get_or r h))
        cases none = rw here
        cases (some r) = refl

    proof_op-odd : i % 2 ≡ 1 → proof_op tree j ≡ some (op_at xs i)
    unfolding proof_op
    proof_op-odd odd =
        let test : (j % 2 == 0) ≡ false = ground arith in
        let (l, left, op) = op_at-odd xs i h leaf odd in
        let back : deref tree (j - 1) ≡ some l =
          unfold deref in
          rw (read p (twice m) xs rest (j - 1) (i - 1) (omega arith) (omega arith)) left in
        rw (test, back, op)

    pub proof_op-eq : proof_op tree j ≡ some (op_at xs i)
    proof_op-eq = elim (ℕ_discrete (i % 2) 0) [
      | yes e ↦ proof_op-even e
      | no e ↦ proof_op-odd (omega arith)
    ]

  -- The prefix of the store in front of the next level has even length as well.
  prefix-even :
      (p : List (Option Hash)) (m : ℕ) (xs : List Hash)
      → length p % 2 ≡ 0
      → length (p ++ pad (twice m) xs) % 2 ≡ 0
  prefix-even p m xs h =
      omega (arith, length-append p (pad (twice m) xs), length-pad (twice m) xs, twice-eq m)

  -- The loop, from the level behind the prefix p on: with more fuel than levels it appends the
  -- path of the entry.
  pub proof_loop-path :
      (k f offset pos j : ℕ) (p : List (Option Hash)) (xs : List Hash) (h : Hash)
      (ops : List (CommitmentMerkleProofOp Hash))
      → k < f
      → offset ≡ length p
      → length p % 2 ≡ 0
      → j ≡ length p + pos
      → pos < pow2 k
      → get_elem? xs pos ≡ some h
      → proof_loop f offset (pow2 k) pos j (p ++ levels k xs) ops ≡ some (ops ++ path k xs pos)
  unfolding proof_loop
  proof_loop-path k zero offset pos j p xs h ops fuel o even e inside leaf = elim fuel [ ]
  proof_loop-path zero (suc f) offset pos j p xs h ops fuel o even e inside leaf = rw append-nil
  proof_loop-path (suc k) (suc f) offset pos j p xs h ops fuel o even e inside leaf =
      let m = pow2 k in
      let deeper : ltb 1 (twice m) ≡ true = ground (arith, twice-eq m, pow2-pos k) in
      let size = length-append p (pad (twice m) xs) in
      let width = length-pad (twice m) xs in
      let half : twice m / 2 ≡ m = omega (arith, twice-eq m) in
      let low : pos / 2 < m = omega (arith, twice-eq m) in
      rw (deeper, proof_op-eq p m xs (levels k (next_level xs)) j pos h e even inside leaf, half)
        (rw (← append_assoc p (pad (twice m) xs) (levels k (next_level xs))) (
          rw (mod-eq_of_lt low) (
            proof_loop-path k f (offset + twice m) (pos / 2) (offset + twice m + pos / 2)
              (p ++ pad (twice m) xs) (next_level xs) (apply_op h (op_at xs pos))
              (ops ++ op_at xs pos ∷ []) (omega arith) (omega arith) (prefix-even p m xs even)
              (omega arith) low (next_level-op_at xs pos h leaf)
            ∙ ap (λ t. some t)
                (append_assoc ops (op_at xs pos ∷ []) (path k (next_level xs) (pos / 2))))))
