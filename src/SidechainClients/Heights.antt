-- ===== src/SidechainClients/Heights.antt =====
-- The heights and the hashes of the blocks of the fake sidechain.
use mainstay.Prelude.{
  ℕ, zero, suc, ◌+◌, ◌<◌, ◌≡◌, refl, sym, ap, ◌∙◌, arith, Bool, true, false, not, ◌&&◌, ◌≤◌, none,
  some, List, [], ◌∷◌, String, str_eq, length, get_elem?,
}
use mathlib.Core.Option.{some-injective}
use package.text.Mathlib.TextPositions.{eq_refl}
use mainstay.Prelude.Int.{pos}
use mainstay.Wire.{Wire, ok}
use mainstay.SidechainClients.{
  blocks, index_from, block_height, block_txs, sidechain_client_fake, get_block_txs,
  SidechainClientFake,
}

-- No text of the list is this one.
abbrev is_new : String → List String → Bool
is_new s [] = true
is_new s (x ∷ xs) = not (str_eq s x) && is_new s xs

abbrev are_different : List String → Bool
are_different [] = true
are_different (x ∷ xs) = is_new x xs && are_different xs

is_new-get_elem? :
    (x s : String) (xs : List String) (n : ℕ)
    → is_new x xs ≡ true
    → get_elem? xs n ≡ some s
    → str_eq x s ≡ false
is_new-get_elem? x s [] n new e = cc
is_new-get_elem? x s (y ∷ xs) zero new e = rw (sym (some-injective _ _ e)) (ground (arith, new))
is_new-get_elem? x s (y ∷ xs) (suc n) new e = is_new-get_elem? x s xs n (ground (arith, new)) e

index_from-get_elem? :
    (s : String) (xs : List String) (i n : ℕ)
    → are_different xs ≡ true
    → get_elem? xs n ≡ some s
    → index_from i xs s ≡ some (i + n)
unfolding index_from
index_from-get_elem? s [] i n differ e = cc
index_from-get_elem? s (x ∷ xs) i zero differ e =
    let same : str_eq x s ≡ true = rw (some-injective _ _ e) (eq_refl s) in
    rw same (ap some (omega arith))
index_from-get_elem? s (x ∷ xs) i (suc n) differ e =
    let apart = is_new-get_elem? x s xs n (ground (arith, differ)) e in
    let ih = index_from-get_elem? s xs (i + 1) n (ground (arith, differ)) e in
    rw (apart, ih) (ap some (omega arith))

blocks_differ : are_different blocks ≡ true
unfolding blocks
blocks_differ = refl

elem_at : {A : Type 0} (xs : List A) (n : ℕ) → n < length xs → (x : A) × (get_elem? xs n ≡ some x)
elem_at [] n h = absurd (omega arith)
elem_at (x ∷ xs) zero h = (x, refl)
elem_at (x ∷ xs) (suc n) h = elem_at xs n (omega arith)

no_elem : {A : Type 0} (xs : List A) (n : ℕ) → length xs ≤ n → get_elem? xs n ≡ none
no_elem [] n h = refl
no_elem (x ∷ xs) zero h = absurd (omega arith)
no_elem (x ∷ xs) (suc n) h = no_elem xs n (omega arith)

many_blocks : length blocks ≡ 15
unfolding blocks
many_blocks = refl

many_txs : length block_txs ≡ 15
unfolding block_txs
many_txs = refl

module _ {Hash : Type 0} (Block : Type 0) (w : Wire Hash) (f : SidechainClientFake) where
  -- Where the texts of the blocks are hashes and are printed as they are read, below height 15 the
  -- block of a height is found at that height, with the transactions of that height.
  get_block_height-get_block_hash :
      ((n : ℕ) (s : String)
        → get_elem? blocks n ≡ some s
        → (hash : Hash) × (w.hash_of_string s ≡ some hash) × (w.hash_string hash ≡ s))
      → (n : ℕ) → n < 15
      → (hash : Hash) × ((sidechain_client_fake w {Block = Block} f).get_block_hash (pos n)
          ≡ some (ok hash))
        × ((sidechain_client_fake w {Block = Block} f).get_block_height hash ≡ some (ok (pos n)))
        × (txs : List String) × (get_elem? block_txs n ≡ some txs)
        × (get_block_txs w hash ≡ some (ok txs))
  unfolding sidechain_client_fake get_block_txs block_height
  get_block_height-get_block_hash texts n small =
      let (s, at) = elem_at blocks n (omega (arith, many_blocks, small)) in
      let (txs, txs_at) = elem_at block_txs n (omega (arith, many_txs, small)) in
      let (hash, read, shown) = texts n s at in
      let found : index_from 0 blocks s ≡ some n =
        index_from-get_elem? s blocks 0 n blocks_differ at ∙ ap some (omega arith) in
      (
        hash,
        rw (at, read) refl,
        rw (shown, found) refl,
        txs,
        txs_at,
        rw (shown, found, txs_at) refl,
      )

  -- From height 15 on GetBlockHash panics.
  get_block_hash-none :
      (n : ℕ) → 15 ≤ n → (sidechain_client_fake w {Block = Block} f).get_block_hash (pos n) ≡ none
  unfolding sidechain_client_fake
  get_block_hash-none n large = rw (no_elem blocks n (omega (arith, many_blocks, large))) refl
