-- ===== src/Merkle/Build.antt =====
-- The loops of buildMerkleTree write the levels of the reference definition.
use mathlib.Core.List.{append-nil, append_assoc}
use mainstay.Prelude.{
  ℕ, zero, suc, ◌+◌, ◌-◌, ◌*◌, ◌/◌, ◌≤◌, ◌≡◌, refl, sym, ap, ◌∙◌, arith, Option, none, some, false,
  List, [], ◌∷◌, ◌++◌, ◌==◌, length, get_elem?, length-append, replicate, map,
  get_elem?-append_right, set-append, lt→ltb,
}
use mainstay.Prelude.Panic.{◌>>=◌, store}
use mainstay.Prelude.Power.{twice, pow2, twice-eq, pow2-pos}
use mainstay.Hashing.{Hashing}
use mainstay.Merkle.Tree.{
  hash_leaves, copy_leaves, parent_of, fill_parents, build_merkle_tree, next_pow,
}
use mainstay.Merkle.Levels.{pad, next_level, levels, pad-eq, length-pad}

-- A write behind a prefix.
store-append {ℓ} :
    {A : Type ℓ} (i : ℕ) (xs ys : List A) (x v : A)
    → i ≡ length xs
    → store (xs ++ x ∷ ys) i v ≡ some (xs ++ v ∷ ys)
store-append i xs ys x v e = rw e (
    rw (lt→ltb (length xs) (length (xs ++ x ∷ ys)) (omega (arith, length-append xs (x ∷ ys))))
      (rw (set-append xs ys x v)))

-- The rounds over 2 ^ k leaves.
abbrev rounds : ℕ → ℕ
rounds zero = 0
rounds (suc k) = pow2 k + rounds k

rounds-eq : (k : ℕ) → suc (rounds k) ≡ pow2 k
rounds-eq zero = refl
rounds-eq (suc k) = omega (arith, rounds-eq k, twice-eq (pow2 k))

replicate-add {ℓ} :
    {A : Type ℓ} (m n : ℕ) (a : A) → replicate (m + n) a ≡ replicate m a ++ replicate n a
replicate-add zero n a = let z : 0 + n ≡ n = omega arith in rw z
replicate-add (suc m) n a =
    let z : suc m + n ≡ suc (m + n) = omega arith in rw z (ap (◌∷◌ a) (replicate-add m n a))

module _ {Hash : Type 0} ⦃c : Hashing Hash⦄ where
  copy_leaves-eq :
      (i : ℕ) (p : List (Option Hash)) (hashes : List Hash) (r : ℕ)
      → i ≡ length p
      → copy_leaves i hashes (p ++ replicate (length hashes + r) none)
        ≡ some (p ++ (map (λ x. some x) hashes ++ replicate r none))
  unfolding copy_leaves
  copy_leaves-eq i p [] r e = let z : 0 + r ≡ r = omega arith in rw z
  copy_leaves-eq i p (x ∷ xs) r e =
      let z : suc (length xs) + r ≡ suc (length xs + r) = omega arith in
      rw z (
        rw (store-append i p (replicate (length xs + r) none) none (some x) e) (
          rw (← append_assoc p (some x ∷ []) (replicate (length xs + r) none)) (
            copy_leaves-eq (i + 1) (p ++ some x ∷ []) xs r
              (omega (arith, length-append p (some x ∷ [])))
            ∙ ap (λ l. some l) (append_assoc p (some x ∷ []) _))))

  -- The parent of two neighbours.
  abbrev combine : Option Hash → Option Hash → Option Hash
  combine none b = none
  combine (some l) none = some (hash_leaves l l)
  combine (some l) (some r) = some (hash_leaves l r)

  -- The loop over a queue: the entries from index i up to the offset.
  abbrev drain_queue : ℕ → List (Option Hash) → List (Option Hash)
  drain_queue zero q = q
  drain_queue (suc n) [] = []
  drain_queue (suc n) (a ∷ []) = a ∷ []
  drain_queue (suc n) (a ∷ b ∷ q) = a ∷ b ∷ drain_queue n (q ++ combine a b ∷ [])

  parent_of-eq :
      (x : List (Option Hash)) (a b : Option Hash) (q : List (Option Hash)) (i : ℕ)
      → i ≡ length x
      → parent_of (x ++ a ∷ b ∷ q) i ≡ some (combine a b)
  unfolding parent_of
  parent_of-eq x a b q i e = rw left (cases a)
    where
      left : get_elem? (x ++ a ∷ b ∷ q) i ≡ some a
      left = let z : i ≡ length x + 0 = omega arith in rw z (get_elem?-append_right x (a ∷ b ∷ q) 0)

      right : get_elem? (x ++ a ∷ b ∷ q) (i + 1) ≡ some b
      right =
          let z : i + 1 ≡ length x + 1 = omega arith in
          rw z (get_elem?-append_right x (a ∷ b ∷ q) 1)

      cases :
          (a' : Option Hash)
          → elim a' [
            | none ↦ some none
            | some l ↦ get_elem? (x ++ a ∷ b ∷ q) (i + 1) >>= λ r. elim r [
              | none ↦ some (some (hash_leaves l l))
              | some h ↦ some (some (hash_leaves l h))
            ]
          ]
            ≡ some (combine a' b)
      cases none = refl
      cases (some l) = rw right (second b)
        where
          second :
              (b' : Option Hash)
              → elim b' [
                | none ↦ some (some (hash_leaves l l))
                | some h ↦ some (some (hash_leaves l h))
              ]
                ≡ some (combine (some l) b')
          second none = refl
          second (some h) = refl

  fill_parents-eq :
      (n i offset : ℕ) (x q : List (Option Hash))
      → i ≡ length x
      → length q ≡ suc n
      → offset ≡ length x + length q
      → fill_parents n i offset (x ++ (q ++ replicate n none)) ≡ some (x ++ drain_queue n q)
  unfolding fill_parents
  fill_parents-eq zero i offset x q e l o = rw append-nil
  fill_parents-eq (suc n) i offset x [] e l o = absurd (omega arith)
  fill_parents-eq (suc n) i offset x (a ∷ []) e l o = absurd (omega arith)
  fill_parents-eq (suc n) i offset x (a ∷ b ∷ q) e l o =
      let p = combine a b in
      let rest = replicate {A = Option Hash} n none in
      let k = λ (m : List (Option Hash)). fill_parents n (i + 2) (offset + 1) m in
      rw (parent_of-eq x a b (q ++ none ∷ rest) i e) (
        ap (λ m. store m offset p >>= k) (sym (append_assoc x (a ∷ b ∷ q) (none ∷ rest)))
        ∙ ap (λ m. m >>= k)
            (store-append offset (x ++ a ∷ b ∷ q) rest none p
              (omega (arith, length-append x (a ∷ b ∷ q))))
        ∙ ap k (regroup p rest)
        ∙ fill_parents-eq n (i + 2) (offset + 1) (x ++ a ∷ b ∷ []) (q ++ p ∷ [])
            (omega (arith, length-append x (a ∷ b ∷ []))) (omega (arith, length-append q (p ∷ [])))
            (omega (arith, length-append q (p ∷ []), length-append x (a ∷ b ∷ [])))
        ∙ ap (λ m. some m) (append_assoc x (a ∷ b ∷ []) _))
    where
      regroup :
          (p : Option Hash) (rest : List (Option Hash))
          → (x ++ a ∷ b ∷ q) ++ p ∷ rest ≡ (x ++ a ∷ b ∷ []) ++ ((q ++ p ∷ []) ++ rest)
      regroup p rest = simp append_assoc

  drain_queue_step :
      (m j : ℕ) (a b : Option Hash) (row acc tail : List (Option Hash))
      → drain_queue (m + j) (row ++ (acc ++ combine a b ∷ []))
        ≡ row ++ drain_queue j ((acc ++ combine a b ∷ []) ++ tail)
      → drain_queue (suc m + j) (a ∷ b ∷ (row ++ acc))
        ≡ a ∷ b ∷ (row ++ drain_queue j (acc ++ combine a b ∷ tail))
  drain_queue_step m j a b row acc tail ih =
      let z : suc m + j ≡ suc (m + j) = omega arith in
      let p = combine a b in
      rw z (
        ap (λ t. a ∷ b ∷ t)
          (ap (drain_queue (m + j)) (append_assoc row acc (p ∷ []))
            ∙ ih
            ∙ ap (λ t. row ++ drain_queue j t) (append_assoc acc (p ∷ []) tail)))

  -- One level: the loop passes its pairs and leaves the next level at the end of the queue.
  drain_queue-pad :
      (m j : ℕ) (xs : List Hash) (acc : List (Option Hash))
      → drain_queue (m + j) (pad (twice m) xs ++ acc)
        ≡ pad (twice m) xs ++ drain_queue j (acc ++ pad m (next_level xs))
  drain_queue-pad zero j xs acc = let z : 0 + j ≡ j = omega arith in rw (z, append-nil)
  drain_queue-pad (suc m) j [] acc =
      drain_queue_step m j none none _ acc _ (drain_queue-pad m j [] _)
  drain_queue-pad (suc m) j (x ∷ []) acc =
      drain_queue_step m j (some x) none _ acc _ (drain_queue-pad m j [] _)
  drain_queue-pad (suc m) j (x ∷ y ∷ r) acc =
      drain_queue_step m j (some x) (some y) _ acc _ (drain_queue-pad m j r _)

  drain_queue-levels :
      (k : ℕ) (xs : List Hash) → drain_queue (rounds k) (pad (pow2 k) xs) ≡ levels k xs
  drain_queue-levels zero xs = refl
  drain_queue-levels (suc k) xs =
      ap (drain_queue (pow2 k + rounds k)) (sym (append-nil (pad (twice (pow2 k)) xs)))
      ∙ drain_queue-pad (pow2 k) (rounds k) xs []
      ∙ ap (λ t. pad (twice (pow2 k)) xs ++ t) (drain_queue-levels k (next_level xs))

  -- The leaves are copied to the front of the store, which is padded by nil.
  copied :
      (k : ℕ) (hashes : List Hash)
      → length hashes ≤ pow2 k
      → copy_leaves 0 hashes (replicate (pow2 k * 2 - 1) none)
        ≡ some (pad (pow2 k) hashes ++ replicate (rounds k) none)
  copied k hashes h =
      let gap = pow2 k - length hashes in
      let size : pow2 k * 2 - 1 ≡ length hashes + (gap + rounds k) =
        omega (arith, rounds-eq k, pow2-pos k) in
      rw size (
        copy_leaves-eq 0 [] hashes (gap + rounds k) refl
        ∙ ap (λ l. some l)
            (ap (λ t. map (λ x. some x) hashes ++ t) (replicate-add gap (rounds k) none)
              ∙ sym (append_assoc (map (λ x. some x) hashes) (replicate gap none) _)
              ∙ ap (λ t. t ++ replicate (rounds k) none)
                  (sym (pad-eq (pow2 k) hashes gap (omega arith)))))

  -- If the next power of two is 2 ^ k and holds the hashes, buildMerkleTree does not panic and
  -- the store is that of the reference definition.
  pub build_merkle_tree-levels :
      (k : ℕ) (hashes : List Hash)
      → next_pow (length hashes) ≡ pow2 k
      → length hashes ≤ pow2 k
      → build_merkle_tree hashes ≡ some (levels k hashes)
  unfolding build_merkle_tree
  build_merkle_tree-levels k hashes e h =
      let some_leaves : (pow2 k == 0) ≡ false = ground (arith, pow2-pos k) in
      let half : (pow2 k * 2 - 1) / 2 ≡ rounds k = omega (arith, rounds-eq k) in
      rw (e, some_leaves, half)
        (ap (λ m. m >>= λ merkles. fill_parents (rounds k) 0 (pow2 k) merkles) (copied k hashes h)
          ∙ fill_parents-eq (rounds k) 0 (pow2 k) [] (pad (pow2 k) hashes) refl
              (omega (arith, length-pad (pow2 k) hashes, rounds-eq k))
              (omega (arith, length-pad (pow2 k) hashes))
          ∙ ap (λ t. some t) (drain_queue-levels k hashes))
