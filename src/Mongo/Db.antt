-- ===== src/Mongo/Db.antt =====
-- db/db_mongo.go over the driver of the database, a third-party package, as a parameter. `none` is
-- a panic: the method StringValue of a field that is missing, or no text.
use Prim.Native.String.{◌++◌ as ◌⧺◌}
use mainstay.Prelude.{
  ℕ, Bool, Option, none, some, List, [], ◌∷◌, map, String, str_eq, ◌==◌, if◌then◌else◌,
}
use mainstay.Prelude.Int.{ℤ}
use mainstay.Prelude.Panic.{maybe}
use mainstay.Hashing.{Hashing}
use mainstay.Wire.{Wire, Result, ok, err, ◌then_ok◌, ◌or_return◌}
use mainstay.Config.{lookup}
use mainstay.Config.Sections.{DbConfig}
use mainstay.Merkle.Commitment.{CommitmentMerkleCommitment}
use mainstay.Merkle.Proof.{CommitmentMerkleProof}
use mainstay.Attestation.{Attestation, AttestationInfo}
use mainstay.Server.{ClientCommitment}
use mainstay.Mongo.{
  Bson, text, boolean, Doc, ClientDetails, details_doc, details_of, attestation_info_doc,
  client_commitment_doc, client_commitment_of, merkle_commitment_doc, merkle_commitment_of,
  merkle_proof_doc, attestation_doc,
}

-- What FindOneAndUpdate with upsert gives: the document before was decoded, or there was none and
-- one is inserted, each with the database behind it; or another error.
pub data Updated (D : Type 0) : Type 0 where
  replaced inserted : D → Updated D
  failed : String → Updated D

pub data Found : Type 0 where
  document : Doc → Found
  no_documents : Found
  not_found : String → Found

-- The methods of a collection that the program calls, with the filter, and the field to sort by:
-- upwards in `find`, downwards in `find_one`. The result of `find` is the documents of the cursor
-- and its error.
pub record Driver (D : Type 0) : Type 0 where
  pub find_one_and_update : String → Doc → Doc → D → Updated D
  pub find : String → Doc → String → D → Result (List Doc × Option String)
  pub find_one : String → Doc → Option String → D → Found
  pub count_documents : String → Doc → D → Result ℕ

-- `fmt.Sprintf("%s %v", message, err)`
abbrev because : String → String → String
because message e = message ⧺ (" " ⧺ e)

abbrev explained : {A : Type 0} → (String → String) → Result A → Result A
explained explain (ok a) = ok a
explained explain (err e) = err (explain e)

-- The fields of a document by which it is looked up.
abbrev pub picked : List String → Doc → Doc
picked [] doc = []
picked (key ∷ keys) doc =
    maybe (lookup key doc) (picked keys doc) (λ value. (key, value) ∷ picked keys doc)

unfoldable pub mongo_uri : DbConfig → String
mongo_uri c =
    "mongodb://"
    ⧺ (c.user
        ⧺ (":"
            ⧺ (c.password
                ⧺ ("@" ⧺ (c.host ⧺ (":" ⧺ (c.port ⧺ ("/" ⧺ (c.name ⧺ "?connect=direct")))))))))

-- The steps of dbConnect: NewClient, Connect and Ping.
unfoldable pub db_connect :
    {Client : Type 0}
    → (String → Result Client)
    → (Client → Result (Unit {0}))
    → (Client → Result (Unit {0}))
    → DbConfig
    → Result Client
unfolding mongo_uri
db_connect new connect ping config =
    explained (because "could not create mongoDB client") (new (mongo_uri config)) then_ok λ client.
    explained (because "could not connect to mongoDB client") (connect client) then_ok λ _.
    explained (because "could not ping mongoDB database") (ping client) then_ok λ _. ok client

module _ {D : Type 0} (m : Driver D) where
  -- A save of one document, looked up by some of its fields. That the encoding of a model fails
  -- cannot happen, and is left out.
  unfoldable pub upsert : String → String → List String → Doc → D → Result D
  upsert message collection keys doc d =
      result (m.find_one_and_update collection (picked keys doc) doc d)
    where
      result : Updated D → Result D
      result (replaced d') = ok d'
      result (inserted d') = ok d'
      result (failed e) = err (because message e)

  -- The loop of the saves of a list. An error leaves what was saved before it, which this result
  -- does not show.
  unfoldable pub upsert_each : String → String → List String → List Doc → D → Result D
  unfolding upsert
  upsert_each message collection keys [] d = ok d
  upsert_each message collection keys (doc ∷ docs) d =
      upsert message collection keys doc d then_ok upsert_each message collection keys docs

  -- The loop over a cursor, whose error comes behind its documents; `explain` is what is made of
  -- an error of the decoder.
  unfoldable pub decoded :
      {A : Type 0}
      → (String → String)
      → String
      → (Doc → Result A)
      → List Doc
      → Option String
      → Result (List A)
  decoded explain message decode [] none = ok []
  decoded explain message decode [] (some e) = err (because message e)
  decoded explain message decode (doc ∷ docs) e = explained explain (decode doc) then_ok λ first.
      decoded explain message decode docs e then_ok λ rest. ok (first ∷ rest)

  abbrev all_of :
      {A : Type 0}
      → String
      → (String → String)
      → String
      → (Doc → Result A)
      → Result (List Doc × Option String)
      → Result (List A)
  all_of get_message explain message decode (ok (docs, e)) = decoded explain message decode docs e
  all_of get_message explain message decode (err e) = err (because get_message e)

  unfoldable pub save_client_details : ClientDetails → D → Result D
  unfolding upsert details_doc
  save_client_details details =
      upsert "could not save client details" "ClientDetails" ("client_position" ∷ [])
        (details_doc details)

  unfoldable pub get_client_details : String → D → Result (List ClientDetails)
  unfolding decoded details_of
  get_client_details e d =
      all_of "could not get client details" (because "bad data in client details collection")
        "bad data in client details collection" (details_of e)
        (m.find "ClientDetails" [] "client_position" d)

  unfoldable pub get_attestation_count : List Bool → D → Result ℕ
  get_attestation_count confirmed d =
      counted (m.count_documents "Attestation" (confirmed_filter confirmed) d)
    where
      confirmed_filter : List Bool → Doc
      confirmed_filter [] = []
      confirmed_filter (b ∷ _) = ("confirmed", boolean b) ∷ []

      counted : Result ℕ → Result ℕ
      counted (ok n) = ok n
      counted (err e) = err (because "could not get attestation" e)

  -- `Lookup(key).StringValue()`
  abbrev string_value : Option Bson → Option String
  string_value (some (text s)) = some s
  string_value other = none

  -- The merkle root of a document that is found; without one, the text `missing`, or an error.
  abbrev root_of : Result String → Found → Option (Result String)
  root_of missing (document doc) =
      maybe (string_value (lookup "merkle_root" doc)) none (λ s. some (ok s))
  root_of missing no_documents = some missing
  root_of missing (not_found e) = some (err (because "could not get attestation" e))

  -- The latest by the time of insertion; `no_result` is the text of the driver's error for none.
  unfoldable pub get_latest_attestation_merkle_root : String → Bool → D → Option (Result String)
  unfolding get_attestation_count
  get_latest_attestation_merkle_root no_result confirmed d =
      some (get_attestation_count (confirmed ∷ []) d) or_return λ count.
      if count == 0
      then some (ok "")
      else root_of (err (because "could not get attestation" no_result))
          (m.find_one "Attestation" (("confirmed", boolean confirmed) ∷ []) (some "inserted_at") d)

  module _ {Hash : Type 0} ⦃c : Hashing Hash⦄ (w : Wire Hash) where
    unfoldable pub save_attestation : ℤ → (ℤ → ℤ) → Attestation Hash → D → Result D
    unfolding upsert attestation_doc
    save_attestation now unix a =
        upsert "could not save attestation" "Attestation" ("txid" ∷ "merkle_root" ∷ [])
          (attestation_doc w now unix a)

    unfoldable pub save_attestation_info : AttestationInfo → D → Result D
    unfolding upsert attestation_info_doc
    save_attestation_info info =
        upsert "could not save attestation info" "AttestationInfo" ("txid" ∷ [])
          (attestation_info_doc info)

    unfoldable pub save_merkle_commitments : List (CommitmentMerkleCommitment Hash) → D → Result D
    unfolding upsert_each merkle_commitment_doc
    save_merkle_commitments commitments =
        upsert_each "could not save merkle commitment" "MerkleCommitment"
          ("merkle_root" ∷ "client_position" ∷ []) (map (merkle_commitment_doc w) commitments)

    unfoldable pub save_merkle_proofs : List (CommitmentMerkleProof Hash) → D → Result D
    unfolding upsert_each merkle_proof_doc
    save_merkle_proofs proofs =
        upsert_each "could not save merkle proof" "MerkleProof"
          ("merkle_root" ∷ "client_position" ∷ []) (map (merkle_proof_doc w) proofs)

    unfoldable pub save_client_commitment : ClientCommitment Hash → D → Result D
    unfolding upsert client_commitment_doc
    save_client_commitment commitment =
        upsert "could not save client commitment" "ClientCommitment" ("client_position" ∷ [])
          (client_commitment_doc w commitment)

    unfoldable pub get_client_commitments : String → D → Result (List (ClientCommitment Hash))
    unfolding decoded client_commitment_of
    get_client_commitments e d =
        all_of "could not get client commitment"
          (because "bad data in client commitment collection")
          "bad data in client commitment collection" (client_commitment_of w e)
          (m.find "ClientCommitment" [] "client_position" d)

    -- The root of an attestation by its id; no document gives no root.
    unfoldable pub get_attestation_merkle_root : Hash → D → Option (Result String)
    unfolding get_attestation_count
    get_attestation_merkle_root txid d = some (get_attestation_count [] d) or_return λ count.
        if count == 0
        then some (ok "")
        else root_of (ok "")
            (m.find_one "Attestation" (("txid", text (w.hash_string txid)) ∷ []) none d)

    unfoldable pub get_attestation_merkle_commitments :
        String → Hash → D → Option (Result (List (CommitmentMerkleCommitment Hash)))
    unfolding get_attestation_merkle_root decoded merkle_commitment_of
    get_attestation_merkle_commitments e txid d =
        get_attestation_merkle_root txid d or_return λ merkle_root.
        if str_eq merkle_root ""
        then some (ok [])
        else some (
            all_of "could not get merkle commitment" (λ x. x)
              "bad data in merkle commitment collection" (merkle_commitment_of w e)
              (m.find "MerkleCommitment" (("merkle_root", text merkle_root) ∷ []) "client_position"
                d))
