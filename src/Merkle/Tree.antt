-- ===== src/Merkle/Tree.antt =====
-- models/commitmentmerkletree.go: the merkle tree store, a slice of hash pointers where nil is
-- `none`. Slice lengths stay below 2 ^ 48, so `int` does not overflow and `math.Log2` is exact
-- enough: its truncation is the floor of the logarithm. Printing is left out.
use Prim.Native.Nat.{bit_and}
use mainstay.Prelude.{
  ℕ, zero, suc, ◌+◌, ◌-◌, ◌*◌, ◌/◌, ◌^◌, Option, none, some, List, [], ◌∷◌, ◌++◌, ◌==◌,
  if◌then◌else◌, get_elem?, length, replicate, ltb,
}
use mainstay.Prelude.Panic.{◌>>=◌, store}
use mainstay.Hashing.{Hashing}

-- `uint(math.Log2(float64(n)))`, with n as fuel.
unfoldable pub log2_loop : ℕ → ℕ → ℕ
log2_loop zero n = 0
log2_loop (suc fuel) n = let rest = log2_loop fuel (n / 2) in if ltb n 2 then 0 else suc rest

unfoldable pub log2 : ℕ → ℕ
unfolding log2_loop
log2 n = log2_loop n n

-- At 0 the source's `n&(n-1)` is 0 & -1, which is 0 as well.
unfoldable pub next_pow : ℕ → ℕ
next_pow n = if n == 1 then 2 else if bit_and n (n - 1) == 0 then n else 2 ^ (log2 n + 1)

module _ {Hash : Type 0} ⦃c : Hashing Hash⦄ where
  unfoldable pub hash_leaves : Hash → Hash → Hash
  hash_leaves left right = c.double_hash_h (c.bytes left ++ c.bytes right)

  -- `for i := range hashes { merkles[i] = &hashes[i] }`, from the index i on.
  unfoldable pub copy_leaves : ℕ → List Hash → List (Option Hash) → Option (List (Option Hash))
  copy_leaves i [] merkles = some merkles
  copy_leaves i (hash ∷ hashes) merkles =
      store merkles i (some hash) >>= λ merkles'. copy_leaves (i + 1) hashes merkles'

  -- The switch of the loop: what is stored at `merkles[offset]` for the children i and i + 1.
  unfoldable pub parent_of : List (Option Hash) → ℕ → Option (Option Hash)
  parent_of merkles i = get_elem? merkles i >>= λ left. elim left [
    | none ↦ some none
    | some l ↦ get_elem? merkles (i + 1) >>= λ right. elim right [
      | none ↦ some (some (hash_leaves l l))
      | some r ↦ some (some (hash_leaves l r))
    ]
  ]

  -- The loop over the pairs of children, by the number of rounds left.
  unfoldable pub fill_parents : ℕ → ℕ → ℕ → List (Option Hash) → Option (List (Option Hash))
  fill_parents zero i offset merkles = some merkles
  fill_parents (suc rounds) i offset merkles = parent_of merkles i >>= λ parent.
      store merkles offset parent >>= λ merkles'. fill_parents rounds (i + 2) (offset + 1) merkles'

  -- `make` panics at the length -1, which no hashes give. The loop runs while i < arraySize - 1
  -- in steps of two: arraySize / 2 rounds, since arraySize is odd.
  unfoldable pub build_merkle_tree : List Hash → Option (List (Option Hash))
  build_merkle_tree hashes =
      let next_pot = next_pow (length hashes) in
      let array_size = next_pot * 2 - 1 in
      if next_pot == 0
      then none
      else copy_leaves 0 hashes (replicate array_size none) >>= λ merkles.
          fill_parents (array_size / 2) 0 next_pot merkles

pub record CommitmentMerkleTree (Hash : Type 0) : Type 0 where
  pub commitments : List Hash
  pub tree_store : List (Option Hash)
  pub root : Hash

module _ {Hash : Type 0} ⦃c : Hashing Hash⦄ where
  -- `*tree[i]`: an index out of range and a nil pointer panic.
  unfoldable pub deref : List (Option Hash) → ℕ → Option Hash
  deref tree i = get_elem? tree i >>= λ p. p

  unfoldable pub new_commitment_merkle_tree : List Hash → Option (CommitmentMerkleTree Hash)
  unfolding deref
  new_commitment_merkle_tree commitments =
      let tree_size = 2 * next_pow (length commitments) - 1 in
      build_merkle_tree commitments >>= λ tree_store. deref tree_store (tree_size - 1) >>= λ root.
      some (record { commitments = commitments; tree_store = tree_store; root = root })

  -- `m.treeStore[len(m.treeStore)-1]`; the empty store panics.
  unfoldable pub update_tree_store : CommitmentMerkleTree Hash → Option (CommitmentMerkleTree Hash)
  unfolding deref
  update_tree_store m = build_merkle_tree m.commitments >>= λ tree_store.
      deref tree_store (length tree_store - 1) >>= λ root.
      some (record m { tree_store = tree_store; root = root })
