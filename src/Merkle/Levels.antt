-- ===== src/Merkle/Levels.antt =====
-- The merkle tree as a reference definition: the levels over an unpadded list of hashes, an odd
-- last hash paired with itself, and the store as the levels one after another, padded by nil.
use mainstay.Prelude.{
  ℕ, zero, suc, ◌+◌, ◌≤◌, ◌<◌, ◌≡◌, refl, ap, arith, Option, none, some, List, [], ◌∷◌, ◌++◌,
  length, get_elem?, length-append, replicate, map,
}
use mainstay.Prelude.Power.{twice, pow2, twice-eq}
use mainstay.Hashing.{Hashing}
use mainstay.Merkle.Tree.{hash_leaves}

-- The hashes, padded by nil to n entries.
abbrev pub pad {ℓ} : {A : Type ℓ} → ℕ → List A → List (Option A)
pad zero xs = []
pad (suc n) [] = none ∷ pad n []
pad (suc n) (x ∷ xs) = some x ∷ pad n xs

module _ {Hash : Type 0} ⦃c : Hashing Hash⦄ where
  abbrev pub next_level : List Hash → List Hash
  next_level [] = []
  next_level (x ∷ []) = hash_leaves x x ∷ []
  next_level (x ∷ y ∷ r) = hash_leaves x y ∷ next_level r

  -- The store over 2 ^ k leaves.
  abbrev pub levels : ℕ → List Hash → List (Option Hash)
  levels zero xs = pad 1 xs
  levels (suc k) xs = pad (pow2 (suc k)) xs ++ levels k (next_level xs)

  -- The one hash k levels up.
  abbrev pub root_of : ℕ → List Hash → Option Hash
  root_of zero [] = none
  root_of zero (x ∷ _) = some x
  root_of (suc k) xs = root_of k (next_level xs)

pub length-pad {ℓ} : {A : Type ℓ} (n : ℕ) (xs : List A) → length (pad n xs) ≡ n
length-pad zero xs = refl
length-pad (suc n) [] = ap suc (length-pad n [])
length-pad (suc n) (x ∷ xs) = ap suc (length-pad n xs)

-- An entry of a padded level, with anything behind it.
pub get_elem?-pad {ℓ} :
    {A : Type ℓ} (n : ℕ) (xs : List A) (rest : List (Option A)) (i : ℕ)
    → i < n
    → get_elem? (pad n xs ++ rest) i ≡ some (get_elem? xs i)
get_elem?-pad zero xs rest i h = absurd (omega arith)
get_elem?-pad (suc n) [] rest zero h = refl
get_elem?-pad (suc n) [] rest (suc i) h = get_elem?-pad n [] rest i (omega arith)
get_elem?-pad (suc n) (x ∷ xs) rest zero h = refl
get_elem?-pad (suc n) (x ∷ xs) rest (suc i) h = get_elem?-pad n xs rest i (omega arith)

pub pad-eq {ℓ} :
    {A : Type ℓ} (n : ℕ) (xs : List A) (r : ℕ)
    → n ≡ length xs + r
    → pad n xs ≡ map (λ x. some x) xs ++ replicate r none
pad-eq zero [] zero e = refl
pad-eq zero [] (suc r) e = absurd (omega arith)
pad-eq zero (x ∷ xs) r e = absurd (omega arith)
pad-eq (suc n) [] zero e = absurd (omega arith)
pad-eq (suc n) [] (suc r) e = ap (◌∷◌ none) (pad-eq n [] r (omega arith))
pad-eq (suc n) (x ∷ xs) r e = ap (◌∷◌ (some x)) (pad-eq n xs r (omega arith))

module _ {Hash : Type 0} ⦃c : Hashing Hash⦄ where
  pub length-next_level :
      (m : ℕ) (xs : List Hash) → length xs ≤ twice m → length (next_level xs) ≤ m
  length-next_level m [] h = omega arith
  length-next_level zero (x ∷ r) h = absurd (omega arith)
  length-next_level (suc m) (x ∷ []) h = omega arith
  length-next_level (suc m) (x ∷ y ∷ r) h = omega (arith, length-next_level m r (omega arith))

  pub length-levels : (k : ℕ) (xs : List Hash) → length (levels k xs) + 1 ≡ twice (pow2 k)
  length-levels zero xs = omega (arith, length-pad 1 xs)
  length-levels (suc k) xs = omega (
    arith,
    length-append (pad (pow2 (suc k)) xs) (levels k (next_level xs)),
    length-pad (pow2 (suc k)) xs,
    length-levels k (next_level xs),
    twice-eq (pow2 k),
    twice-eq (twice (pow2 k)),
  )
