-- ===== src/Server/Saved.antt =====
-- attestation/attestserver.go and db/db_fake.go: UpdateLatestAttestation followed by
-- GetAttestationCommitment.
use mainstay.Server.Stored.{
  IsNewRoot, root_with-save_one, get_attestation_merkle_root-eq, save_each-new, with_root-new,
  commitments_from-HaveRoot, map-commitments_from,
}
use mainstay.Prelude.{
  ◌≡◌, refl, ap, ◌∙◌, inl, inr, Bool, false, none, some, List, [], ◌∷◌, str_eq, Bool-cases,
}
use mainstay.Hashing.{Hashing}
use mainstay.Wire.{Wire, ok}
use mainstay.Merkle.Commitment.{
  Commitment, created, new_commitment, get_commitment_hash, get_merkle_commitments,
  commitments_from,
}
use mainstay.Merkle.Attested.{created-IsTreeOf, get_merkle_proofs_show}
use mainstay.Attestation.{Attestation, commitment_hash, commitment_of}
use mainstay.Server.{
  update_latest_attestation, update_info_of, get_attestation_commitment, commitment_from,
  commitment_result,
}
use mainstay.DbFake.{
  DbFake, save_one, save_each, same_commitment, save_attestation, save_merkle_commitments,
  save_merkle_proofs, save_attestation_info, root_with, with_root, get_attestation_merkle_root,
  get_attestation_merkle_commitments, db_fake,
}

module _ {Hash : Type 0} ⦃c : Hashing Hash⦄ ⦃w : Wire Hash⦄ where
  holds_hashes :
      (x : Hash) (xs : List Hash) (commitment : Commitment Hash)
      → new_commitment (x ∷ xs) ≡ some (created commitment)
      → commitment.tree.commitments ≡ x ∷ xs
  holds_hashes x xs commitment made = (created-IsTreeOf (x ∷ xs) commitment made).1.same

  -- What the database answers once it holds the attestation and the merkle commitments.
  found :
      (x : Hash) (xs : List Hash) (commitment : Commitment Hash) (a : Attestation Hash)
      (d d' : DbFake Hash) (confirmed : Bool)
      → new_commitment (x ∷ xs) ≡ some (created commitment)
      → commitment.tree.commitments ≡ x ∷ xs
      → a.commitment ≡ some commitment
      → str_eq (w.hash_string (get_commitment_hash commitment)) "" ≡ false
      → IsNewRoot (w.hash_string (get_commitment_hash commitment)) d.merkle_commitments
      → d'.attestations ≡ save_one (λ b. c.beq b.txid a.txid) a d.attestations
      → d'.merkle_commitments
        ≡ save_each same_commitment (get_merkle_commitments commitment) [] d.merkle_commitments
      → get_attestation_commitment db_fake a.txid confirmed d' ≡ some (ok commitment)
  unfolding get_attestation_commitment db_fake get_attestation_merkle_commitments commitment_hash
      get_merkle_commitments
  found x xs commitment a d d' confirmed made same held named isnew e1 e2 =
      let root = get_commitment_hash commitment in
      let all = commitments_from root 0 (x ∷ xs) in
      let at : get_attestation_merkle_root a.txid d' ≡ w.hash_string root =
        get_attestation_merkle_root-eq a.txid d'
        ∙ ap (root_with a.txid) e1
        ∙ root_with-save_one a d.attestations
        ∙ ap w.hash_string (rw held) in
      let stored : with_root (w.hash_string root) d'.merkle_commitments ≡ all =
        rw
          (
            e2,
            same,
            save_each-new root all [] d.merkle_commitments
                (commitments_from-HaveRoot root 0 (x ∷ xs)) isnew,
          )
          (with_root-new root all d.merkle_commitments (commitments_from-HaveRoot root 0 (x ∷ xs))
            isnew) in
      rw (at, named, stored) (back confirmed)
    where
      back :
          (b : Bool)
          → commitment_from b (commitments_from (get_commitment_hash commitment) 0 (x ∷ xs))
            ≡ some (ok commitment)
      back b =
          rw (map-commitments_from (get_commitment_hash commitment) 1 xs, made, commitment_result)

  -- UpdateLatestAttestation of an attestation that holds the commitment of some hashes, over a
  -- database in memory that holds no merkle commitment with its root, succeeds without an error
  -- or a panic, and in the database that this call leaves GetAttestationCommitment gives that
  -- commitment for the id of the attestation, confirmed or not. The root's string must not be
  -- empty.
  pub get_attestation_commitment-update :
      (x : Hash) (xs : List Hash) (commitment : Commitment Hash) (a : Attestation Hash)
      (d : DbFake Hash) (confirmed : Bool)
      → new_commitment (x ∷ xs) ≡ some (created commitment)
      → a.commitment ≡ some commitment
      → str_eq (w.hash_string (get_commitment_hash commitment)) "" ≡ false
      → IsNewRoot (w.hash_string (get_commitment_hash commitment)) d.merkle_commitments
      → (d' : DbFake Hash) × (update_latest_attestation db_fake a d ≡ some (d', none))
        × (get_attestation_commitment db_fake a.txid confirmed d' ≡ some (ok commitment))
  unfolding update_latest_attestation db_fake commitment_of save_attestation save_merkle_commitments
      save_merkle_proofs save_attestation_info
  get_attestation_commitment-update x xs commitment a d confirmed made held named isnew =
      let proved = get_merkle_proofs_show (x ∷ xs) commitment 0 x made refl in
      let proofs = proved.0 in
      let d1 =
        save_merkle_proofs proofs
          (save_merkle_commitments (get_merkle_commitments commitment) (save_attestation a d)) in
      let ready = found x xs commitment a d in
      elim (Bool-cases a.confirmed) [
        | inl yes' ↦ (
          save_attestation_info a.info d1,
          rw (held, proved.1, update_info_of, yes'),
          ready _ confirmed made (holds_hashes x xs commitment made) held named isnew refl refl,
        )
        | inr no' ↦ (
          d1,
          rw (held, proved.1, update_info_of, no'),
          ready d1 confirmed made (holds_hashes x xs commitment made) held named isnew refl refl,
        )
      ]
