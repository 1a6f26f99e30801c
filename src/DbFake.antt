-- ===== src/DbFake.antt =====
-- db/db_fake.go: the database in memory, as an implementation of the interface.
use mainstay.Prelude.{
  ℕ, ◌+◌, Bool, true, false, ◌&&◌, Option, none, some, List, [], ◌∷◌, ◌++◌, String, if◌then◌else◌,
  str_eq, length, ◌==◌,
}
use mainstay.Prelude.Int.{ℤ, pos, negsuc}
use mainstay.Prelude.Panic.{maybe}
use mainstay.Hashing.{Hashing}
use mainstay.Wire.{Wire, Result, ok, err}
use mainstay.Merkle.Commitment.{CommitmentMerkleCommitment}
use mainstay.Merkle.Proof.{CommitmentMerkleProof}
use mainstay.Attestation.{Attestation, AttestationInfo, commitment_hash}
use mainstay.Server.{ClientCommitment, Db}

pub record DbFake (Hash : Type 0) : Type 0 where
  pub attestations : List (Attestation Hash)
  pub attestations_info : List AttestationInfo
  pub merkle_commitments : List (CommitmentMerkleCommitment Hash)
  pub merkle_proofs : List (CommitmentMerkleProof Hash)
  pub latest_commitments : List (ClientCommitment Hash)

unfoldable pub new_db_fake : {Hash : Type 0} → DbFake Hash
new_db_fake = record {
  attestations = [];
  attestations_info = [];
  merkle_commitments = [];
  merkle_proofs = [];
  latest_commitments = [];
}

-- The loop of the saves: the first element that `same` accepts is replaced by x.
unfoldable pub replace_first : {A : Type 0} → (A → Bool) → A → List A → Option (List A)
replace_first same x [] = none
replace_first same x (a ∷ rest) =
    if same a
    then some (x ∷ rest)
    else maybe (replace_first same x rest) none λ rest'. some (a ∷ rest')

-- `return nil` after the replacement, else `append`.
unfoldable pub save_one : {A : Type 0} → (A → Bool) → A → List A → List A
unfolding replace_first
save_one same x rest = maybe (replace_first same x rest) (rest ++ x ∷ []) λ rest'. rest'

-- The saves of a list: what was found is replaced, the rest is appended at the end.
unfoldable pub save_each : {A : Type 0} → (A → A → Bool) → List A → List A → List A → List A
unfolding replace_first
save_each same [] new old = old ++ new
save_each same (x ∷ xs) new old =
    maybe (replace_first (same x) x old) (save_each same xs (new ++ x ∷ []) old)
      λ old'. save_each same xs new old'

abbrev pub bool_eq : Bool → Bool → Bool
bool_eq true b = b
bool_eq false true = false
bool_eq false false = true

abbrev int_eq : ℤ → ℤ → Bool
int_eq (pos a) (pos b) = a == b
int_eq (negsuc a) (negsuc b) = a == b
int_eq _ _ = false

-- The loop that counts the attestations with the flag.
unfoldable pub count_with : {Hash : Type 0} → Bool → List (Attestation Hash) → ℕ
count_with confirmed [] = 0
count_with confirmed (a ∷ rest) =
    if bool_eq a.confirmed confirmed
    then 1 + count_with confirmed rest
    else count_with confirmed rest

unfoldable pub get_attestation_count : {Hash : Type 0} → Option Bool → DbFake Hash → ℕ
unfolding count_with
get_attestation_count none d = length d.attestations
get_attestation_count (some confirmed) d = count_with confirmed d.attestations

-- The loop from the last attestation to the first: the last one with the flag.
unfoldable pub last_with :
    {Hash : Type 0} → Bool → List (Attestation Hash) → Option (Attestation Hash)
last_with confirmed [] = none
last_with confirmed (a ∷ rest) = elim (last_with confirmed rest) [
  | some b ↦ some b
  | none ↦ if bool_eq a.confirmed confirmed then some a else none
]

abbrev pub error_attestation_get : String
error_attestation_get = "could not get attestation"

module _ {Hash : Type 0} ⦃c : Hashing Hash⦄ where
  unfoldable pub save_attestation : Attestation Hash → DbFake Hash → DbFake Hash
  unfolding save_one
  save_attestation x d = record d {
    attestations = save_one (λ a. c.beq a.txid x.txid) x d.attestations;
  }

  unfoldable pub save_attestation_info : AttestationInfo → DbFake Hash → DbFake Hash
  unfolding save_one
  save_attestation_info x d = record d {
    attestations_info = save_one (λ a. str_eq a.txid x.txid) x d.attestations_info;
  }

  abbrev pub same_commitment :
      CommitmentMerkleCommitment Hash → CommitmentMerkleCommitment Hash → Bool
  same_commitment x a =
      c.beq a.merkle_root x.merkle_root
      && int_eq a.client_position x.client_position
      && c.beq a.commitment x.commitment

  unfoldable pub save_merkle_commitments :
      List (CommitmentMerkleCommitment Hash) → DbFake Hash → DbFake Hash
  unfolding save_each
  save_merkle_commitments xs d = record d {
    merkle_commitments = save_each same_commitment xs [] d.merkle_commitments;
  }

  abbrev pub same_proof : CommitmentMerkleProof Hash → CommitmentMerkleProof Hash → Bool
  same_proof x a =
      c.beq a.commitment x.commitment
      && int_eq a.client_position x.client_position
      && c.beq a.merkle_root x.merkle_root

  unfoldable pub save_merkle_proofs : List (CommitmentMerkleProof Hash) → DbFake Hash → DbFake Hash
  unfolding save_each
  save_merkle_proofs xs d = record d { merkle_proofs = save_each same_proof xs [] d.merkle_proofs }

  unfoldable pub get_latest_attestation_merkle_root :
      ⦃w : Wire Hash⦄ → Bool → DbFake Hash → Result String
  unfolding get_attestation_count last_with
  get_latest_attestation_merkle_root ⦃w⦄ confirmed d =
      if get_attestation_count (some confirmed) d == 0
      then ok ""
      else elim (last_with confirmed d.attestations) [
        | some a ↦ ok (w.hash_string (commitment_hash a))
        | none ↦ err error_attestation_get
      ]

  -- The loop of getAttestationMerkleRoot.
  unfoldable pub root_with : ⦃w : Wire Hash⦄ → Hash → List (Attestation Hash) → String
  root_with ⦃w⦄ txid [] = ""
  root_with ⦃w⦄ txid (a ∷ rest) =
      if c.beq txid a.txid then w.hash_string (commitment_hash a) else root_with txid rest

  unfoldable pub get_attestation_merkle_root : ⦃w : Wire Hash⦄ → Hash → DbFake Hash → String
  unfolding get_attestation_count root_with
  get_attestation_merkle_root txid d =
      if get_attestation_count none d == 0 then "" else root_with txid d.attestations

  -- The loop that selects the commitments with the root.
  unfoldable pub with_root :
      ⦃w : Wire Hash⦄
      → String
      → List (CommitmentMerkleCommitment Hash)
      → List (CommitmentMerkleCommitment Hash)
  with_root ⦃w⦄ merkle_root [] = []
  with_root ⦃w⦄ merkle_root (x ∷ xs) =
      let rest = with_root merkle_root xs in
      if str_eq (w.hash_string x.merkle_root) merkle_root then x ∷ rest else rest

  unfoldable pub get_attestation_merkle_commitments :
      ⦃w : Wire Hash⦄ → Hash → DbFake Hash → List (CommitmentMerkleCommitment Hash)
  unfolding get_attestation_merkle_root with_root
  get_attestation_merkle_commitments txid d =
      let merkle_root = get_attestation_merkle_root txid d in
      if str_eq merkle_root "" then [] else with_root merkle_root d.merkle_commitments

  unfoldable pub db_fake : ⦃w : Wire Hash⦄ → Db Hash (DbFake Hash)
  db_fake = record {
    save_attestation = λ x d. ok (save_attestation x d);
    save_attestation_info = λ x d. ok (save_attestation_info x d);
    save_merkle_commitments = λ xs d. ok (save_merkle_commitments xs d);
    save_merkle_proofs = λ xs d. ok (save_merkle_proofs xs d);
    get_latest_attestation_merkle_root = get_latest_attestation_merkle_root;
    get_client_commitments = λ d. ok d.latest_commitments;
    get_attestation_merkle_commitments = λ txid d. ok (get_attestation_merkle_commitments txid d);
  }

unfoldable pub set_client_commitments :
    {Hash : Type 0} → List (ClientCommitment Hash) → DbFake Hash → DbFake Hash
set_client_commitments latest d = record d { latest_commitments = latest }
