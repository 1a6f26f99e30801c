-- ===== src/Mongo.antt =====
-- The BSON forms of the models (models/bsontomodel.go and the methods MarshalBSON and UnmarshalBSON
-- of the models): a document is the list of its fields.
pub mod Db
pub mod Forms
pub mod Documented
pub mod Table
pub mod Query
pub mod Saves
pub mod Toy
mod Tests
use mainstay.Prelude.{
  ℕ, zero, suc, Bool, true, false, ◌&&◌, Option, none, some, List, [], ◌∷◌, map, String,
  if◌then◌else◌,
}
use mainstay.Prelude.Int.{ℤ, pos, negsuc, ◌≤ℤ◌, ltb_ℤ}
use mainstay.Prelude.Panic.{maybe}
use mainstay.Hashing.{Hashing}
use mainstay.Wire.{Wire, Result, ok, err, ◌then_ok◌}
use mainstay.Config.{lookup}
use mainstay.Merkle.Commitment.{CommitmentMerkleCommitment}
use mainstay.Merkle.Proof.{CommitmentMerkleProof, CommitmentMerkleProofOp}
use mainstay.Attestation.{Attestation, AttestationInfo, commitment_hash}
use mainstay.Server.{ClientCommitment}

-- The values that the models have; `other` is any value that their decoders refuse.
pub data Bson : Type 0 where
  text : String → Bson
  int32 : ℤ → Bson
  int64 : ℤ → Bson
  boolean : Bool → Bson
  date : ℤ → Bson
  ops : List (Bool × String) → Bson
  other : Bson

abbrev pub Doc : Type 0
Doc = List (String × Bson)

-- What `bson.Unmarshal` puts into a field of a struct: its zero value if the document has none.
-- The text of its error is an argument.
abbrev pub text_field : String → String → Doc → Result String
text_field e key doc = read (lookup key doc)
  where
    read : Option Bson → Result String
    read none = ok ""
    read (some (text s)) = ok s
    read (some _) = err e

-- A wider number is taken if it fits.
abbrev pub int32_field : String → String → Doc → Result ℤ
int32_field e key doc = read (lookup key doc)
  where
    read : Option Bson → Result ℤ
    read none = ok (pos 0)
    read (some (int32 n)) = ok n
    read (some (int64 n)) =
        if ltb_ℤ (negsuc 2147483648) n && ltb_ℤ n (pos 2147483648) then ok n else err e
    read (some _) = err e

abbrev pub hash_or_error : {A : Type 0} → String → Option A → Result A
hash_or_error e none = err e
hash_or_error e (some hash) = ok hash

-- models/clientdetails.go
pub record ClientDetails : Type 0 where
  pub client_position : ℤ
  pub auth_token : String
  pub pubkey : String
  pub client_name : String

unfoldable pub details_doc : ClientDetails → Doc
details_doc c =
    ("client_position", int32 c.client_position)
    ∷ ("auth_token", text c.auth_token)
    ∷ ("pubkey", text c.pubkey)
    ∷ ("client_name", text c.client_name)
    ∷ []

unfoldable pub details_of : String → Doc → Result ClientDetails
details_of e doc = int32_field e "client_position" doc then_ok λ client_position.
    text_field e "auth_token" doc then_ok λ auth_token. text_field e "pubkey" doc then_ok λ pubkey.
    text_field e "client_name" doc then_ok λ client_name. ok (record {
      client_position = client_position;
      auth_token = auth_token;
      pubkey = pubkey;
      client_name = client_name;
    })

unfoldable pub attestation_info_doc : AttestationInfo → Doc
attestation_info_doc a =
    ("txid", text a.txid)
    ∷ ("blockhash", text a.blockhash)
    ∷ ("amount", int64 a.amount)
    ∷ ("time", int64 a.time)
    ∷ []

module _ {Hash : Type 0} (w : Wire Hash) where
  unfoldable pub client_commitment_doc : ClientCommitment Hash → Doc
  client_commitment_doc c =
      ("commitment", text (w.hash_string c.commitment))
      ∷ ("client_position", int32 c.client_position)
      ∷ []

  unfoldable pub merkle_commitment_doc : CommitmentMerkleCommitment Hash → Doc
  merkle_commitment_doc c =
      ("merkle_root", text (w.hash_string c.merkle_root))
      ∷ ("client_position", int32 c.client_position)
      ∷ ("commitment", text (w.hash_string c.commitment))
      ∷ []

  unfoldable pub merkle_proof_doc : CommitmentMerkleProof Hash → Doc
  merkle_proof_doc p =
      ("merkle_root", text (w.hash_string p.merkle_root))
      ∷ ("client_position", int32 p.client_position)
      ∷ ("commitment", text (w.hash_string p.commitment))
      ∷ ("ops", ops (op_docs p.ops))
      ∷ []
    where
      op_docs : List (CommitmentMerkleProofOp Hash) → List (Bool × String)
      op_docs [] = []
      op_docs (op ∷ rest) = (op.append, w.hash_string op.commitment) ∷ op_docs rest

  -- `now` is `time.Now`; the time of the info counts seconds.
  unfoldable pub attestation_doc : ⦃c : Hashing Hash⦄ → ℤ → (ℤ → ℤ) → Attestation Hash → Doc
  attestation_doc now unix a =
      ("txid", text (w.hash_string a.txid))
      ∷ ("merkle_root", text (w.hash_string (commitment_hash a)))
      ∷ ("confirmed", boolean a.confirmed)
      ∷ ("inserted_at", date (inserted_at a.info.time))
      ∷ []
    where
      inserted_at : ℤ → ℤ
      inserted_at (pos zero) = now
      inserted_at (pos (suc n)) = unix (pos (suc n))
      inserted_at (negsuc n) = unix (negsuc n)

-- `e` is the text of the errors of the decoder and of NewHashFromStr.
module _ {Hash : Type 0} (w : Wire Hash) (e : String) where
  unfoldable pub client_commitment_of : Doc → Result (ClientCommitment Hash)
  client_commitment_of doc = text_field e "commitment" doc then_ok λ commitment.
      int32_field e "client_position" doc then_ok λ client_position.
      hash_or_error e (w.hash_of_string commitment) then_ok λ commitment_hash.
      ok (record { commitment = commitment_hash; client_position = client_position })

  unfoldable pub merkle_commitment_of : Doc → Result (CommitmentMerkleCommitment Hash)
  merkle_commitment_of doc = text_field e "merkle_root" doc then_ok λ merkle_root.
      int32_field e "client_position" doc then_ok λ client_position.
      text_field e "commitment" doc then_ok λ commitment.
      hash_or_error e (w.hash_of_string merkle_root) then_ok λ root_hash.
      hash_or_error e (w.hash_of_string commitment) then_ok λ commit_hash. ok (record {
        merkle_root = root_hash;
        client_position = client_position;
        commitment = commit_hash;
      })
