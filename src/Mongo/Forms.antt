-- ===== src/Mongo/Forms.antt =====
-- What is written to the database is read back.
use mainstay.Prelude.{◌≡◌, refl, some, String, ◌++◌}
use mainstay.Wire.{Wire, ok}
use mainstay.Merkle.Commitment.{CommitmentMerkleCommitment}
use mainstay.Server.{ClientCommitment}
use mainstay.Mongo.{
  Doc, ClientDetails, details_doc, details_of, client_commitment_doc, client_commitment_of,
  merkle_commitment_doc, merkle_commitment_of,
}

module _ {Hash : Type 0} (w : Wire Hash) (e : String)
    (read : (h : Hash) → w.hash_of_string (w.hash_string h) ≡ some h) where
  client_commitment_of-doc :
      (c : ClientCommitment Hash) → client_commitment_of w e (client_commitment_doc w c) ≡ ok c
  unfolding client_commitment_of client_commitment_doc
  client_commitment_of-doc c = rw (read c.commitment) refl

  -- What other fields the document has does not matter.
  pub client_commitment_of-append :
      (c : ClientCommitment Hash) (others : Doc)
      → client_commitment_of w e (client_commitment_doc w c ++ others) ≡ ok c
  unfolding client_commitment_of client_commitment_doc
  client_commitment_of-append c others = rw (read c.commitment) refl

  pub merkle_commitment_of-append :
      (c : CommitmentMerkleCommitment Hash) (others : Doc)
      → merkle_commitment_of w e (merkle_commitment_doc w c ++ others) ≡ ok c
  unfolding merkle_commitment_of merkle_commitment_doc
  merkle_commitment_of-append c others = rw (read c.merkle_root, read c.commitment) refl

  merkle_commitment_of-doc :
      (c : CommitmentMerkleCommitment Hash)
      → merkle_commitment_of w e (merkle_commitment_doc w c) ≡ ok c
  unfolding merkle_commitment_of merkle_commitment_doc
  merkle_commitment_of-doc c = rw (read c.merkle_root, read c.commitment) refl

details_of-doc : (e : String) (c : ClientDetails) → details_of e (details_doc c) ≡ ok c
unfolding details_of details_doc
details_of-doc e c = refl

pub details_of-append :
    (e : String) (c : ClientDetails) (others : Doc) → details_of e (details_doc c ++ others) ≡ ok c
unfolding details_of details_doc
details_of-append e c others = refl
