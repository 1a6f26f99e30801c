-- ===== src/Mongo/Tests.antt =====
-- Runs of the database code over the driver of Mongo/Toy.
use package.text.Mathlib.TextEquality.{eq_iff}
use mainstay.Prelude.{◌≡◌, ◌↔◌, refl, true, some, List, [], ◌∷◌, String, str_eq, if◌then◌else◌, ◌∈◌}
use mainstay.Prelude.Int.{pos}
use mainstay.Hashing.{Hashing}
use mainstay.Wire.{Wire, ok, err}
use mainstay.Server.{ClientCommitment}
use mainstay.Mongo.{text, int32, other, Doc, client_commitment_of}
use mainstay.Mongo.Db.{
  save_client_commitment, get_client_commitments, get_latest_attestation_merkle_root,
}
use mainstay.Mongo.Table.{IsLatest}
use mainstay.Mongo.Saves.{save_client_commitments, get_client_commitments-save}
use mainstay.Mongo.Toy.{Store, toy_driver}
use mainstay.Mongo.Toy.Laws.{toy_documented}

-- Hashes that are texts, printed as they are.
instance abbrev text_hashing : Hashing String
text_hashing = record {
  beq = str_eq;
  beq_iff = eq_iff;
  zero_hash = "";
  bytes = λ s. [];
  double_hash_h = λ l. "";
}

abbrev text_wire : Wire String
text_wire = record {
  hash_string = λ s. s;
  hash_of_string = some;
  tx_hash = λ tx. "";
  serialize = λ tx. [];
  serialize_size = λ tx. 10;
  var_int_size = λ n. 1;
}

abbrev commitment : ClientCommitment String
commitment = record { commitment = "one"; client_position = pos 4 }

abbrev commitment2 : ClientCommitment String
commitment2 = record { commitment = "two"; client_position = pos 4 }

abbrev one_doc : Doc
one_doc = ("commitment", text "one") ∷ ("client_position", int32 (pos 4)) ∷ []

abbrev two_doc : Doc
two_doc = ("commitment", text "two") ∷ ("client_position", int32 (pos 4)) ∷ one_doc

abbrev no_store : Store
no_store name = []

abbrev only : Doc → Store → Store
only doc d name = if str_eq name "ClientCommitment" then doc ∷ [] else d name

saved : save_client_commitment toy_driver text_wire commitment no_store ≡ ok (only one_doc no_store)
unfolding save_client_commitment
saved = refl

-- A save at the same position replaces the commitment.
replaced_commitment :
    save_client_commitment toy_driver text_wire commitment2 (only one_doc no_store)
    ≡ ok (only two_doc (only one_doc no_store))
unfolding save_client_commitment
replaced_commitment = refl

fetched :
    get_client_commitments toy_driver text_wire "bad" (only one_doc no_store) ≡ ok (commitment ∷ [])
unfolding get_client_commitments
fetched = refl

-- A document with another value at the position is refused, one without is read as 0.
refused :
    client_commitment_of text_wire "bad"
      (("commitment", text "one") ∷ ("client_position", other) ∷ [])
    ≡ err "bad"
unfolding client_commitment_of
refused = refl

defaulted :
    client_commitment_of text_wire "bad" (("commitment", text "one") ∷ [])
    ≡ ok (record { commitment = "one"; client_position = pos 0 })
unfolding client_commitment_of
defaulted = refl

no_attestation :
    get_latest_attestation_merkle_root toy_driver "none" true (only one_doc no_store) ≡ some (ok "")
unfolding get_latest_attestation_merkle_root
no_attestation = refl

both_saved :
    save_client_commitments text_wire toy_documented (commitment ∷ commitment2 ∷ []) no_store
    ≡ ok (only two_doc (only one_doc no_store))
unfolding save_client_commitments save_client_commitment
both_saved = refl

get_client_commitments-save_example :
    (found : List (ClientCommitment String)) × (get_client_commitments toy_driver text_wire "bad"
        (only two_doc (only one_doc no_store))
      ≡ ok found)
    × ((c : ClientCommitment String)
        → (c ∈ found)
          ↔ IsLatest
              (λ (c' : ClientCommitment String). c'.client_position)
              c
              (commitment ∷ commitment2 ∷ []))
get_client_commitments-save_example =
    get_client_commitments-save text_wire toy_documented (λ h. refl) "bad"
      (commitment ∷ commitment2 ∷ []) no_store (only two_doc (only one_doc no_store)) refl
      both_saved (two_doc ∷ []) refl
