-- ===== src/Server/Stored.antt =====
-- db/db_fake.go: what its lists hold after a save, and what its searches find in them.
use mathlib.Core.List.{append_assoc, append-nil}
use text.Mathlib.TextPositions.{eq_refl}
use mainstay.Prelude.{
  ℕ, suc, ◌+◌, ◌≡◌, refl, ap, ◌∙◌, arith, inl, inr, Bool, true, false, Option, none, some, List, [],
  ◌∷◌, ◌++◌, map, String, if◌then◌else◌, str_eq, length, ◌==◌, Bool-cases,
}
use mainstay.Prelude.Panic.{maybe}
use mainstay.Hashing.{Hashing}
use mainstay.Wire.{Wire}
use mainstay.Merkle.Commitment.{CommitmentMerkleCommitment, commitments_from}
use mainstay.Attestation.{Attestation, commitment_hash}
use mainstay.DbFake.{
  DbFake, replace_first, save_one, save_each, same_commitment, root_with, with_root,
  get_attestation_merkle_root,
}

module _ {Hash : Type 0} ⦃c : Hashing Hash⦄ ⦃w : Wire Hash⦄ where
  -- No stored merkle commitment has this root.
  abbrev pub IsNewRoot : String → List (CommitmentMerkleCommitment Hash) → Type 0
  IsNewRoot root [] = Unit {0}
  IsNewRoot root (e ∷ es) = (str_eq (w.hash_string e.merkle_root) root ≡ false) × IsNewRoot root es

  abbrev HaveRoot : Hash → List (CommitmentMerkleCommitment Hash) → Type 0
  HaveRoot root [] = Unit {0}
  HaveRoot root (e ∷ es) = (e.merkle_root ≡ root) × HaveRoot root es

  other_root :
      (root e : Hash) → str_eq (w.hash_string e) (w.hash_string root) ≡ false → c.beq e root ≡ false
  other_root root e h = elim (Bool-cases (c.beq e root)) [
    | inr differ ↦ differ
    | inl same ↦ absurd (cc ((c.beq_iff e root).0 same, eq_refl (w.hash_string root)))
  ]

  replace_first-none :
      (root : Hash) (x : CommitmentMerkleCommitment Hash)
      (old : List (CommitmentMerkleCommitment Hash))
      → x.merkle_root ≡ root
      → IsNewRoot (w.hash_string root) old
      → replace_first (same_commitment x) x old ≡ none
  unfolding replace_first
  replace_first-none root x [] at new = refl
  replace_first-none root x (e ∷ es) at new =
      rw (at, other_root root e.merkle_root new.0, replace_first-none root x es at new.1)

  pub save_each-new :
      (root : Hash) (xs new old : List (CommitmentMerkleCommitment Hash))
      → HaveRoot root xs
      → IsNewRoot (w.hash_string root) old
      → save_each same_commitment xs new old ≡ old ++ (new ++ xs)
  unfolding save_each
  save_each-new root [] new old have isnew = rw append-nil
  save_each-new root (x ∷ xs) new old have isnew =
      rw (replace_first-none root x old have.0 isnew, save_each)
        (save_each-new root xs (new ++ x ∷ []) old have.1 isnew
          ∙ ap (◌++◌ old) (append_assoc new (x ∷ []) xs))

  with_root-all :
      (root : Hash) (xs : List (CommitmentMerkleCommitment Hash))
      → HaveRoot root xs
      → with_root (w.hash_string root) xs ≡ xs
  unfolding with_root
  with_root-all root [] have = refl
  with_root-all root (x ∷ xs) have =
      rw (have.0, eq_refl (w.hash_string root), with_root-all root xs have.1)

  pub with_root-new :
      (root : Hash) (xs old : List (CommitmentMerkleCommitment Hash))
      → HaveRoot root xs
      → IsNewRoot (w.hash_string root) old
      → with_root (w.hash_string root) (old ++ xs) ≡ xs
  unfolding with_root
  with_root-new root xs [] have isnew = with_root-all root xs have
  with_root-new root xs (e ∷ es) have isnew = rw isnew.0 (with_root-new root xs es have isnew.1)

  pub commitments_from-HaveRoot :
      (root : Hash) (i : ℕ) (xs : List Hash) → HaveRoot root (commitments_from root i xs)
  unfolding commitments_from
  commitments_from-HaveRoot root i [] = tt
  commitments_from-HaveRoot root i (x ∷ xs) = (refl, commitments_from-HaveRoot root (i + 1) xs)

  pub map-commitments_from :
      (root : Hash) (i : ℕ) (xs : List Hash)
      → map (λ y. y.commitment) (commitments_from root i xs) ≡ xs
  unfolding commitments_from
  map-commitments_from root i [] = refl
  map-commitments_from root i (x ∷ xs) = ap (◌∷◌ x) (map-commitments_from root (i + 1) xs)

  save_one-same :
      (same : Attestation Hash → Bool) (x b : Attestation Hash) (bs : List (Attestation Hash))
      → same b ≡ true
      → save_one same x (b ∷ bs) ≡ x ∷ bs
  unfolding save_one replace_first
  save_one-same same x b bs h = rw (h, save_one, replace_first)

  save_one-cons :
      (same : Attestation Hash → Bool) (x b : Attestation Hash) (bs : List (Attestation Hash))
      → same b ≡ false
      → save_one same x (b ∷ bs) ≡ b ∷ save_one same x bs
  unfolding save_one replace_first
  save_one-cons same x b bs differ =
      rw (differ, save_one, replace_first) (push (replace_first same x bs))
    where
      push :
          (o : Option (List (Attestation Hash)))
          → maybe (maybe o none λ rest. some (b ∷ rest)) ((b ∷ bs) ++ x ∷ []) (λ rest. rest)
            ≡ b ∷ maybe o (bs ++ x ∷ []) (λ rest. rest)
      push none = refl
      push (some rest) = refl

  beq_refl : (a : Hash) → c.beq a a ≡ true
  beq_refl a = (c.beq_iff a a).1 refl

  beq_false : (a b : Hash) → c.beq a b ≡ false → c.beq b a ≡ false
  beq_false a b h = elim (Bool-cases (c.beq b a)) [
    | inr differ ↦ differ
    | inl same ↦ absurd (cc ((c.beq_iff b a).0 same, beq_refl a))
  ]

  -- The attestation that was saved is the one found under its id.
  pub root_with-save_one :
      (x : Attestation Hash) (all : List (Attestation Hash))
      → root_with x.txid (save_one (λ a. c.beq a.txid x.txid) x all)
        ≡ w.hash_string (commitment_hash x)
  unfolding root_with save_one
  root_with-save_one x [] = rw (beq_refl x.txid)
  root_with-save_one x (b ∷ bs) = elim (Bool-cases (c.beq b.txid x.txid)) [
    | inl same ↦
        rw (save_one-same (λ a. c.beq a.txid x.txid) x b bs same, beq_refl x.txid, root_with)
    | inr differ ↦
        rw
          (
            save_one-cons (λ a. c.beq a.txid x.txid) x b bs differ,
            beq_false b.txid x.txid differ,
            root_with,
          )
          (root_with-save_one x bs)
  ]

  pub get_attestation_merkle_root-eq :
      (txid : Hash) (d : DbFake Hash)
      → get_attestation_merkle_root txid d ≡ root_with txid d.attestations
  unfolding get_attestation_merkle_root
  get_attestation_merkle_root-eq txid d = go d.attestations
    where
      positive : (n : ℕ) → (suc n == 0) ≡ false
      positive n = ground arith

      go :
          (all : List (Attestation Hash))
          → (if length all == 0 then "" else root_with txid all) ≡ root_with txid all
      go [] = refl
      go (x ∷ xs) = rw (positive (length xs))
