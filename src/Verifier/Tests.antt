-- ===== src/Verifier/Tests.antt =====
-- Runs of the verifier, and its theorem at concrete answers of the API.
use mainstay.Prelude.{ℕ, ◌+◌, ◌≡◌, refl, true, some, [], ◌∷◌, length}
use mainstay.Prelude.Int.{pos}
use mainstay.Wire.{ok}
use mainstay.Wire.Toy.{toy_wire}
use mainstay.Hashing.Toy.{toy_hashing}
use mainstay.Merkle.Tree.{hash_leaves}
use mainstay.Merkle.Proof.{prove_merkle_proof}
use mainstay.Tweak.{tweak_extended_key}
use mainstay.Staychain.{Tx}
use mainstay.Verifier.{
  Answer, Query, request_failed, response, attestation_of, commitment_of, proof_of, scalar, list,
  text, flag, Outside, ChainVerifier, ChainVerifierInfo, verify,
}
use mainstay.Verifier.Accepted.{IsAccepted, verify-IsAccepted}

abbrev api : Query → Answer
api (attestation_of txid) = response (("merkle_root", scalar (text "many")) ∷ [])
api (commitment_of root position) = response (("commitment", scalar (text "one")) ∷ [])
api (proof_of position root) =
    response
      (("ops", list (some (("append", flag true) ∷ ("commitment", text "one") ∷ []) ∷ [])) ∷ [])

-- Keys are numbers, and all addresses are one.
abbrev outside : Outside ℕ ℕ ℕ ℕ
outside = record {
  api = api;
  get_block_height = λ hash. ok (pos (hash + 7));
  child = λ key i. ok (key + i);
  ec_pub_key = λ key. ok key;
  new_extended_key = λ key chaincode. length key;
  address_string = λ address. "address";
  keys = record {
    serialize_compressed = λ key. key ∷ [];
    parse_pub_key = λ bytes. some (length bytes);
    script_hash_address = λ script. length script;
  };
}

abbrev verifier : ChainVerifier ℕ
verifier = record { position = pos 0; pubkeys = 5 ∷ []; num_of_sigs = 1 }

abbrev tx : Tx
tx = record { txid = "two"; block_hash = "many"; vout = ("address" ∷ []) ∷ [] }

abbrev info : ChainVerifierInfo ℕ
info = record { hash = 1; height = pos 8 }

verified : verify toy_wire outside verifier tx ≡ some (ok info)
unfolding verify tweak_extended_key prove_merkle_proof hash_leaves
verified = refl

abbrev failing : Query → Answer
failing (commitment_of root position) = request_failed
failing query = api query

-- An API that fails on the commitment gives no error, but the info without a commitment.
not_answered :
    verify toy_wire (record outside { api = failing }) verifier tx
    ≡ some (ok (record { hash = 0; height = pos 0 }))
unfolding verify tweak_extended_key prove_merkle_proof hash_leaves
not_answered = refl

verify-IsAccepted_example : IsAccepted toy_wire outside verifier tx info
verify-IsAccepted_example = verify-IsAccepted toy_wire outside verifier tx info verified
