-- ===== src/Server/Latest.antt =====
-- attestation/attestserver.go and db/db_fake.go: the latest attestation.
use mainstay.Prelude.{
  ℕ, ◌+◌, ◌≤◌, ◌≡◌, refl, ap, ◌∙◌, arith, Bool, true, false, none, some, List, [], ◌∷◌, ◌++◌,
  String, if◌then◌else◌, str_eq, ◌==◌,
}
use mainstay.Hashing.{Hashing}
use mainstay.Wire.{Wire, ok}
use mainstay.Attestation.{Attestation, commitment_hash}
use mainstay.Server.{read_root, get_latest_attestation_commitment_hash}
use mainstay.DbFake.{
  DbFake, replace_first, save_one, save_attestation, count_with, last_with, bool_eq,
  get_latest_attestation_merkle_root, db_fake,
}

bool_eq_refl : (b : Bool) → bool_eq b b ≡ true
bool_eq_refl true = refl
bool_eq_refl false = refl

module _ {Hash : Type 0} ⦃c : Hashing Hash⦄ ⦃w : Wire Hash⦄ where
  -- No attestation was saved under this id.
  abbrev pub IsNewId : Hash → List (Attestation Hash) → Type 0
  IsNewId txid [] = Unit {0}
  IsNewId txid (a ∷ rest) = (c.beq a.txid txid ≡ false) × IsNewId txid rest

  replace_first-none :
      (x : Attestation Hash) (all : List (Attestation Hash))
      → IsNewId x.txid all
      → replace_first (λ a. c.beq a.txid x.txid) x all ≡ none
  unfolding replace_first
  replace_first-none x [] h = refl
  replace_first-none x (a ∷ rest) h = rw (h.0, replace_first-none x rest h.1)

  last_with-append :
      (x : Attestation Hash) (all : List (Attestation Hash))
      → last_with x.confirmed (all ++ x ∷ []) ≡ some x
  unfolding last_with
  last_with-append x [] = rw (bool_eq_refl x.confirmed)
  last_with-append x (a ∷ rest) = rw (last_with-append x rest)

  count_with-append :
      (x : Attestation Hash) (all : List (Attestation Hash))
      → 1 ≤ count_with x.confirmed (all ++ x ∷ [])
  unfolding count_with
  count_with-append x [] = rw (bool_eq_refl x.confirmed) (omega arith)
  count_with-append x (a ∷ rest) =
      let ih = count_with-append x rest in by_flag (bool_eq a.confirmed x.confirmed) _ ih
    where
      by_flag : (b : Bool) (n : ℕ) → 1 ≤ n → 1 ≤ (if b then 1 + n else n)
      by_flag b n h = ground arith

  merkle_root-save_attestation :
      (a : Attestation Hash) (d : DbFake Hash)
      → IsNewId a.txid d.attestations
      → get_latest_attestation_merkle_root a.confirmed (save_attestation a d)
        ≡ ok (w.hash_string (commitment_hash a))
  unfolding get_latest_attestation_merkle_root save_attestation save_one
  merkle_root-save_attestation a d new =
      let counted : (count_with a.confirmed (d.attestations ++ a ∷ []) == 0) ≡ false =
        ground (arith, count_with-append a d.attestations) in
      rw (replace_first-none a d.attestations new, counted, last_with-append a d.attestations)

  -- After an attestation with a new id is saved in the database in memory, the latest commitment
  -- hash for its flag, confirmed or not, is the hash it attests; if hashes are read back from
  -- their strings, and the string of this one is not empty.
  pub get_latest-save_attestation :
      (bad_hash : String) (a : Attestation Hash) (d : DbFake Hash)
      → IsNewId a.txid d.attestations
      → str_eq (w.hash_string (commitment_hash a)) "" ≡ false
      → w.hash_of_string (w.hash_string (commitment_hash a)) ≡ some (commitment_hash a)
      → get_latest_attestation_commitment_hash db_fake bad_hash a.confirmed (save_attestation a d)
        ≡ ok (commitment_hash a)
  unfolding get_latest_attestation_commitment_hash db_fake
  get_latest-save_attestation bad_hash a d new named read =
      ap (read_root bad_hash) (merkle_root-save_attestation a d new) ∙ rw (named, read, read_root)
