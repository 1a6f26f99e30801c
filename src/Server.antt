-- ===== src/Server.antt =====
-- attestation/attestserver.go: the server that keeps commitments and attestations in a database,
-- and the interface of db/db.go as a record of operations on a database of type D.
pub mod Placed
pub mod Committed
pub mod Stored
pub mod Saved
pub mod Latest
mod Tests
use mainstay.Prelude.{
  ℕ, zero, suc, ◌+◌, ◌≡◌, Bool, true, false, Option, none, some, List, [], ◌∷◌, ◌++◌, map, String,
  if◌then◌else◌, length, replicate, str_eq,
}
use mainstay.Prelude.Int.{ℤ, pos, negsuc, ◌+ℤ◌, wrap32}
use mainstay.Prelude.Panic.{◌>>=◌, store}
use mainstay.Hashing.{Hashing}
use mainstay.Wire.{Wire, Result, ok, err}
use mainstay.Merkle.Commitment.{
  Commitment, CommitmentMerkleCommitment, NewResult, created, commitment_list_empty, new_commitment,
  get_merkle_commitments, get_merkle_proofs,
}
use mainstay.Merkle.Proof.{CommitmentMerkleProof}
use mainstay.Attestation.{Attestation, AttestationInfo, commitment_of}

-- models/clientcommitment.go; the position is an `int32`.
pub record ClientCommitment (Hash : Type 0) : Type 0 where
  pub commitment : Hash
  pub client_position : ℤ

-- A save gives an error or the database after it.
pub record Db (Hash D : Type 0) : Type 0 where
  pub save_attestation : Attestation Hash → D → Result D
  pub save_attestation_info : AttestationInfo → D → Result D
  pub save_merkle_commitments : List (CommitmentMerkleCommitment Hash) → D → Result D
  pub save_merkle_proofs : List (CommitmentMerkleProof Hash) → D → Result D
  pub get_latest_attestation_merkle_root : Bool → D → Result String
  pub get_client_commitments : D → Result (List (ClientCommitment Hash))
  pub get_attestation_merkle_commitments :
      Hash → D → Result (List (CommitmentMerkleCommitment Hash))

-- `if errSave != nil { return errSave }`: what was saved before stays saved.
abbrev pub saved :
    {D : Type 0} → Result D → D → (D → Option (D × Option String)) → Option (D × Option String)
saved (ok d') d next = next d'
saved (err e) d next = some (d, some e)

-- `models.Commitment{}`
abbrev pub zero_commitment : {Hash : Type 0} → ⦃c : Hashing Hash⦄ → Commitment Hash
zero_commitment ⦃c⦄ = record {
  tree = record { commitments = []; tree_store = []; root = c.zero_hash };
}

abbrev pub error_commitment_list_empty : String
error_commitment_list_empty = "List of commitments is empty"

-- The two results of NewCommitment as a value and an error.
unfoldable pub commitment_result : {Hash : Type 0} → NewResult Hash → Result (Commitment Hash)
commitment_result (created commitment) = ok commitment
commitment_result commitment_list_empty = err error_commitment_list_empty

-- The size that `make` gets: the last position and 1, as an `int32`; a negative size panics.
unfoldable pub make_size : ℤ → Option ℕ
make_size (pos n) = some n
make_size (negsuc n) = none

-- `commitmentHashes[c.ClientPosition] = c.Commitment`
unfoldable pub place :
    {Hash : Type 0} → List (ClientCommitment Hash) → List Hash → Option (List Hash)
unfolding make_size
place [] hashes = some hashes
place (x ∷ xs) hashes = make_size x.client_position >>= λ at.
    store hashes at x.commitment >>= λ hashes'. place xs hashes'

-- The position of the last element.
unfoldable pub last_position :
    {Hash : Type 0} → ClientCommitment Hash → List (ClientCommitment Hash) → ℤ
last_position x [] = x.client_position
last_position x (y ∷ ys) = last_position y ys

module _ {Hash : Type 0} ⦃c : Hashing Hash⦄ where
  -- The hashes of GetClientCommitment by position, a missing one as the zero hash.
  unfoldable pub hashes_by_position : List (ClientCommitment Hash) → Option (List Hash)
  unfolding make_size place last_position
  hashes_by_position [] = some []
  hashes_by_position (x ∷ xs) = make_size (wrap32 (last_position x xs +ℤ pos 1)) >>= λ n.
      place (x ∷ xs) (replicate n c.zero_hash)

  -- The branch of GetAttestationCommitment without an error of the database.
  unfoldable pub commitment_from :
      Bool → List (CommitmentMerkleCommitment Hash) → Option (Result (Commitment Hash))
  unfolding commitment_result
  commitment_from true [] = some (ok zero_commitment)
  commitment_from false [] = new_commitment [] >>= λ made. some (commitment_result made)
  commitment_from confirmed (x ∷ xs) =
      new_commitment (map (λ y. y.commitment) (x ∷ xs)) >>= λ made. some (commitment_result made)

  -- The answer of the database as a hash. The error of NewHashFromStr is the library's, its text a
  -- parameter here.
  unfoldable pub read_root : ⦃w : Wire Hash⦄ → String → Result String → Result Hash
  read_root bad_hash (err e) = err e
  read_root ⦃w⦄ bad_hash (ok merkle_root) =
      if str_eq merkle_root ""
      then ok c.zero_hash
      else elim (w.hash_of_string merkle_root) [ none ↦ err bad_hash | some hash ↦ ok hash ]

module _ {Hash D : Type 0} ⦃c : Hashing Hash⦄ (db : Db Hash D) where
  unfoldable pub update_attestation_commitment : Commitment Hash → D → Option (D × Option String)
  update_attestation_commitment commitment d =
      saved (db.save_merkle_commitments (get_merkle_commitments commitment) d) d λ d1.
        get_merkle_proofs commitment >>= λ merkle_proofs.
        saved (db.save_merkle_proofs merkle_proofs d1) d1 λ d2. some (d2, none)

  -- The end of UpdateLatestAttestation, behind the commitment.
  unfoldable pub update_info_of : Attestation Hash → D × Option String → Option (D × Option String)
  update_info_of attestation (d, some e) = some (d, some e)
  update_info_of attestation (d, none) =
      if attestation.confirmed
      then (saved (db.save_attestation_info attestation.info d) d λ d'. some (d', none))
      else some (d, none)

  -- The database after it with the error it returns; `none` is a panic.
  unfoldable pub update_latest_attestation : Attestation Hash → D → Option (D × Option String)
  unfolding update_attestation_commitment update_info_of commitment_of
  update_latest_attestation attestation d = saved (db.save_attestation attestation d) d λ d1.
      elim (commitment_of attestation) [
        | err e ↦ some (d1, some e)
        | ok commitment ↦ update_attestation_commitment commitment d1 >>= λ after.
            update_info_of attestation after
      ]

  unfoldable pub get_client_commitment : D → Option (Result (Commitment Hash))
  unfolding hashes_by_position commitment_result
  get_client_commitment d = elim (db.get_client_commitments d) [
    | err e ↦ some (err e)
    | ok latest ↦ hashes_by_position latest >>= λ hashes.
        new_commitment hashes >>= λ made. some (commitment_result made)
  ]

  -- The variadic `confirmed` is its one value, true by default.
  unfoldable pub get_attestation_commitment : Hash → Bool → D → Option (Result (Commitment Hash))
  unfolding commitment_from
  get_attestation_commitment txid confirmed d =
      elim (db.get_attestation_merkle_commitments txid d) [
        | err e ↦ some (err e)
        | ok merkle_commitments ↦ commitment_from confirmed merkle_commitments
      ]

  unfoldable pub get_latest_attestation_commitment_hash :
      ⦃w : Wire Hash⦄ → String → Bool → D → Result Hash
  unfolding read_root
  get_latest_attestation_commitment_hash bad_hash confirmed d =
      read_root bad_hash (db.get_latest_attestation_merkle_root confirmed d)
