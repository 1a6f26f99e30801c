-- ===== src/Server/Placed.antt =====
-- The hashes that GetClientCommitment puts in the order of their positions.
use mainstay.Prelude.{
  ℕ, zero, suc, ◌+◌, ◌≤◌, ◌<◌, ◌≡◌, ◌≢◌, refl, sym, ap, ◌∙◌, arith, inl, inr, true, false, Option,
  none, some, List, [], ◌∷◌, if◌then◌else◌, ◌==◌, ==_iff, ltb, lt→ltb, length, get_elem?, set,
  replicate, length-replicate, Bool-cases,
}
use mainstay.Prelude.Int.{pos, pos_part, ◌+ℤ◌, wrap32, wrap32_pos}
use mainstay.Prelude.Panic.{maybe}
use mainstay.Hashing.{Hashing}
use mainstay.Server.{ClientCommitment, make_size, place, last_position, hashes_by_position}

module _ {Hash : Type 0} where
  -- The positions are not negative and increase, from `lo` on; the last one is below `n`.
  abbrev pub Ascending : ℕ → ℕ → List (ClientCommitment Hash) → Type 0
  Ascending lo n [] = Unit {0}
  Ascending lo n (x ∷ xs) =
      (i : ℕ) × (x.client_position ≡ pos i) × (lo ≤ i) × (i < n) × Ascending (suc i) n xs

  -- The hash at a position.
  abbrev pub at_position : ℕ → List (ClientCommitment Hash) → Option Hash
  at_position i [] = none
  at_position i (x ∷ xs) =
      if pos_part x.client_position == i then some x.commitment else at_position i xs

  length-set : (hs : List Hash) (i : ℕ) (h : Hash) → length (set hs i h) ≡ length hs
  length-set [] i h = refl
  length-set (x ∷ hs) zero h = refl
  length-set (x ∷ hs) (suc i) h = ap suc (length-set hs i h)

  get_elem?-set_same :
      (hs : List Hash) (i : ℕ) (h : Hash) → i < length hs → get_elem? (set hs i h) i ≡ some h
  get_elem?-set_same [] i h within = absurd (omega arith)
  get_elem?-set_same (x ∷ hs) zero h within = refl
  get_elem?-set_same (x ∷ hs) (suc i) h within = get_elem?-set_same hs i h (omega arith)

  get_elem?-set_other :
      (hs : List Hash) (i j : ℕ) (h : Hash) → i ≢ j → get_elem? (set hs i h) j ≡ get_elem? hs j
  get_elem?-set_other [] i j h other = refl
  get_elem?-set_other (x ∷ hs) zero zero h other = absurd (other refl)
  get_elem?-set_other (x ∷ hs) zero (suc j) h other = refl
  get_elem?-set_other (x ∷ hs) (suc i) zero h other = refl
  get_elem?-set_other (x ∷ hs) (suc i) (suc j) h other =
      get_elem?-set_other hs i j h λ e. other (ap suc e)

  at_position-none :
      (lo n i : ℕ) (xs : List (ClientCommitment Hash))
      → Ascending lo n xs
      → i < lo
      → at_position i xs ≡ none
  at_position-none lo n i [] up before = refl
  at_position-none lo n i (x ∷ xs) (k, at, above, below, rest) before =
      let differ : (k == i) ≡ false = ground arith in
      rw (at, differ) (at_position-none (suc k) n i xs rest (omega arith))

  place-all :
      (lo n : ℕ) (xs : List (ClientCommitment Hash)) (hs : List Hash)
      → Ascending lo n xs
      → length hs ≡ n
      → (hs' : List Hash) × (place xs hs ≡ some hs')
        × (length hs' ≡ n)
        × ((i : ℕ) → i < n → get_elem? hs' i ≡ maybe (at_position i xs) (get_elem? hs i) some)
  unfolding place make_size
  place-all lo n [] hs up size = (hs, refl, size, λ i within. refl)
  place-all lo n (x ∷ xs) hs (k, at, above, below, rest) size =
      let hs1 = set hs k x.commitment in
      let ih = place-all (suc k) n xs hs1 rest (length-set hs k x.commitment ∙ size) in
      let fits : ltb k (length hs) ≡ true = rw size (lt→ltb k n below) in
      (ih.0, rw (at, fits, place) ih.1, ih.2, λ i within. ih.3 i within ∙ read i within)
    where
      read :
          (i : ℕ)
          → i < n
          → maybe (at_position i xs) (get_elem? (set hs k x.commitment) i) some
            ≡ maybe (at_position i (x ∷ xs)) (get_elem? hs i) some
      read i within = elim (Bool-cases (k == i)) [
        | inl same ↦
            let e : k ≡ i = (==_iff k i).0 same in
            rw (at, same, at_position-none (suc k) n i xs rest (omega arith))
              (ap (get_elem? (set hs k x.commitment)) (sym e)
                ∙ get_elem?-set_same hs k x.commitment (omega arith))
        | inr differ ↦
            let other : k ≢ i = λ e. cc ((==_iff k i).1 e) in
            rw (at, differ, get_elem?-set_other hs k i x.commitment other)
      ]

get_elem?-replicate :
    {A : Type 0} → (n i : ℕ) (a : A) → i < n → get_elem? (replicate n a) i ≡ some a
get_elem?-replicate zero i a within = absurd (omega arith)
get_elem?-replicate (suc n) zero a within = refl
get_elem?-replicate (suc n) (suc i) a within = get_elem?-replicate n i a (omega arith)

make_size-next : (l : ℕ) → l < 2147483647 → make_size (wrap32 (pos l +ℤ pos 1)) ≡ some (suc l)
unfolding make_size ◌+ℤ◌
make_size-next l small =
    let next : l + 1 ≡ suc l = omega arith in
    let sum : pos l +ℤ pos 1 ≡ pos (suc l) = ground (arith, next) in
    rw (sum, wrap32_pos (suc l) (omega arith))

module _ {Hash : Type 0} ⦃c : Hashing Hash⦄ where
  -- The hashes that GetClientCommitment commits to.
  pub hashes_by_position-at_position :
      (x : ClientCommitment Hash) (xs : List (ClientCommitment Hash)) (l : ℕ)
      → last_position x xs ≡ pos l
      → l < 2147483647
      → Ascending 0 (suc l) (x ∷ xs)
      → (hs : List Hash) × (hashes_by_position (x ∷ xs) ≡ some hs)
        × (length hs ≡ suc l)
        × ((i : ℕ)
            → i < suc l
            → get_elem? hs i ≡ some (maybe (at_position i (x ∷ xs)) c.zero_hash λ h. h))
  unfolding hashes_by_position
  hashes_by_position-at_position x xs l last small up =
      let blank = replicate (suc l) c.zero_hash in
      let placed = place-all 0 (suc l) (x ∷ xs) blank up (length-replicate (suc l) c.zero_hash) in
      (
        placed.0,
        rw (last, make_size-next l small) placed.1,
        placed.2,
        λ i within.
            placed.3 i within
            ∙ rw (get_elem?-replicate (suc l) i c.zero_hash within)
                (defaulted (at_position i (x ∷ xs))),
      )
    where
      defaulted :
          (o : Option Hash) → maybe o (some c.zero_hash) some ≡ some (maybe o c.zero_hash λ h. h)
      defaulted none = refl
      defaulted (some h) = refl
