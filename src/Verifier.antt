-- ===== src/Verifier.antt =====
-- staychain/chainverifier.go: the verification of a transaction of the staychain by a client.
-- `none` is a panic, or the end of the process by `log.Fatal`; an error is its text. An answer of
-- the API is the decoded object under "response", and a URL stands by what is asked for.
pub mod New
pub mod Accepted
mod Tests
use Prim.Native.String.{◌++◌ as ◌⧺◌}
use mainstay.Prelude.{
  ℕ, ◌≡◌, Bool, true, false, not, ◌||◌, Option, none, some, List, [], ◌∷◌, map, String, str_eq,
  ◌==◌, if◌then◌else◌, length,
}
use mainstay.Prelude.Int.{ℤ, pos, wrap32}
use mainstay.Prelude.Panic.{◌>>=◌}
use mainstay.Hashing.{Hashing}
use mainstay.Wire.{Wire, Result, ok, err, ◌then_ok◌, ◌or_return◌}
use mainstay.Hex.{decode_string}
use mainstay.Merkle.Proof.{CommitmentMerkleProof, CommitmentMerkleProofOp, prove_merkle_proof}
use mainstay.Script.Multisig.{Keys, create_multisig, parse_redeem_script}
use mainstay.Tweak.{tweak_extended_key}
use mainstay.Staychain.{Tx}

-- The decoded values that the code tells apart; an element of a list is an object, or not.
pub data Scalar : Type 0 where
  text : String → Scalar
  flag : Bool → Scalar
  other : Scalar

pub data Value : Type 0 where
  scalar : Scalar → Value
  list : List (Option (List (String × Scalar))) → Value

abbrev pub Object : Type 0
Object = List (String × Value)

-- What `http.Get` and the decoder give; `missing` has no "response", and the text of its "error".
pub data Answer : Type 0 where
  request_failed decode_failed : Answer
  missing : String → Answer
  not_an_object : Answer
  response : Object → Answer

pub data Query : Type 0 where
  attestation_of : String → Query
  commitment_of : String → ℤ → Query
  proof_of : ℤ → String → Query

unfoldable pub get_api_response : Answer → Option (Result Object)
get_api_response request_failed = some (err "API request failed")
get_api_response decode_failed = some (err "API response decoding failed")
get_api_response (missing e) = some (err ("API response decoding failed\n" ⧺ (e ⧺ "\n")))
get_api_response not_an_object = none
get_api_response (response o) = some (ok o)

-- A Go map, and the type assertions on what it holds: `none` is their panic.
abbrev pub field : {A : Type 0} → String → List (String × A) → Option A
field key [] = none
field key ((name, value) ∷ rest) = if str_eq name key then some value else field key rest

abbrev pub as_text : Scalar → Option String
as_text (text s) = some s
as_text (flag b) = none
as_text other = none

abbrev pub as_flag : Scalar → Option Bool
as_flag (flag b) = some b
as_flag (text s) = none
as_flag other = none

abbrev pub as_scalar : Value → Option Scalar
as_scalar (scalar s) = some s
as_scalar (list l) = none

abbrev pub as_list : Value → Option (List (Option (List (String × Scalar))))
as_list (list l) = some l
as_list (scalar s) = none

pub record ChainVerifierInfo (Hash : Type 0) : Type 0 where
  pub hash : Hash
  pub height : ℤ

pub record ChainVerifier (Key : Type 0) : Type 0 where
  pub position : ℤ
  pub pubkeys : List Key
  pub num_of_sigs : ℕ

-- What the code takes from outside: the API, GetBlockHeight of the side client, the methods Child
-- and ECPubKey of extended keys, their constructor for a key and a chaincode, and the method
-- String of an address.
pub record Outside (Hash Key Pub Address : Type 0) : Type 0 where
  pub api : Query → Answer
  pub get_block_height : Hash → Result ℤ
  pub child : Key → ℕ → Result Key
  pub ec_pub_key : Key → Result Pub
  pub new_extended_key : List ℕ → List ℕ → Key
  pub address_string : Address → String
  pub keys : Keys Pub Address

abbrev pub one_address : List (List String) → Option (Result (Unit {0}))
one_address [] = none
one_address (addresses ∷ _) =
    if length addresses == 1
    then some (ok tt)
    else some (err "Attestation TX does not have a single address.")

abbrev pub one_vout : List (List String) → Option (Result (Unit {0}))
one_vout vout =
    if length vout == 1
    then one_address vout
    else some (err "Attestation TX does not have a single vout.")

unfoldable pub verify_tx_basic : Tx → Option (Result (Unit {0}))
verify_tx_basic tx = one_vout tx.vout

-- `tx.Vout[0].ScriptPubKey.Addresses[0]`
abbrev pub first_address : List (List String) → Option String
first_address [] = none
first_address ([] ∷ _) = none
first_address ((address ∷ _) ∷ _) = some address

module _ {Hash Key Pub Address : Type 0} ⦃c : Hashing Hash⦄ (w : Wire Hash)
    (o : Outside Hash Key Pub Address) where
  -- The loop that tweaks the base keys.
  unfoldable pub tweaked_pubs : List Key → List ℕ → Option (Result (List Pub))
  tweaked_pubs [] commitment_bytes = some (ok [])
  tweaked_pubs (pub_key ∷ rest) commitment_bytes =
      some (tweak_extended_key o.child pub_key commitment_bytes) or_return λ tweaked_key.
      some (o.ec_pub_key tweaked_key) or_return λ tweaked_pub.
      tweaked_pubs rest commitment_bytes or_return λ tweaked. some (ok (tweaked_pub ∷ tweaked))

  unfoldable pub verify_tx_addr : ChainVerifier Key → Tx → String → Option (Result (Unit {0}))
  unfolding tweaked_pubs
  verify_tx_addr v tx root = first_address tx.vout >>= λ txaddr.
      w.hash_of_string root >>= λ root_hash.
      tweaked_pubs v.pubkeys (c.bytes root_hash) or_return λ tweaked.
      if str_eq (o.address_string (create_multisig o.keys tweaked v.num_of_sigs).0) txaddr
      then some (ok tt)
      else some (err "Tweaked address does not match the transaction address")

  -- One element of the list of ops.
  unfoldable pub op_of : Option (List (String × Scalar)) → Option (CommitmentMerkleProofOp Hash)
  op_of none = none
  op_of (some op1) = field "append" op1 >>= as_flag >>= λ op_append.
      field "commitment" op1 >>= as_text >>= w.hash_of_string >>= λ op_commitment.
      some (record { append = op_append; commitment = op_commitment })

  unfoldable pub ops_of :
      List (Option (List (String × Scalar))) → Option (List (CommitmentMerkleProofOp Hash))
  unfolding op_of
  ops_of [] = some []
  ops_of (op ∷ rest) = op_of op >>= λ first. ops_of rest >>= λ ops. some (first ∷ ops)

  unfoldable pub verify_commitment_proof :
      ChainVerifier Key → String → String → Option (Result (Unit {0}))
  unfolding get_api_response ops_of
  verify_commitment_proof v commitment root =
      get_api_response (o.api (proof_of v.position root)) or_return λ resp_proof.
      w.hash_of_string commitment >>= λ commitment_hash. w.hash_of_string root >>= λ root_hash.
      field "ops" resp_proof >>= as_list >>= ops_of >>= λ ops.
      if prove_merkle_proof (record {
        merkle_root = root_hash;
        client_position = wrap32 v.position;
        commitment = commitment_hash;
        ops = ops;
      })
      then some (ok tt)
      else some (err ("Could not prove client merkle commitment " ⧺ (commitment ⧺ "\n")))

  unfoldable pub no_info : ChainVerifierInfo Hash
  no_info = record { hash = c.zero_hash; height = pos 0 }

  -- The last part of Verify, for a commitment that is proved.
  unfoldable pub proved_info : String → Option (Result (ChainVerifierInfo Hash))
  proved_info commitment = w.hash_of_string commitment >>= λ commitment_hash.
      some (o.get_block_height commitment_hash) or_return λ height.
      some (ok (record { hash = commitment_hash; height = height }))

  -- The part behind the check of the address; without an answer there is no commitment.
  unfoldable pub verify_commitment :
      ChainVerifier Key → String → Option (Result Object) → Option (Result (ChainVerifierInfo Hash))
  unfolding verify_commitment_proof no_info proved_info
  verify_commitment v root none = none
  verify_commitment v root (some (err e)) = some (ok no_info)
  verify_commitment v root (some (ok resp_commitment)) =
      field "commitment" resp_commitment >>= as_scalar >>= as_text >>= λ commitment.
      verify_commitment_proof v commitment root or_return λ _. proved_info commitment

  unfoldable pub verify : ChainVerifier Key → Tx → Option (Result (ChainVerifierInfo Hash))
  unfolding verify_tx_basic verify_tx_addr verify_commitment get_api_response
  verify v tx = verify_tx_basic tx or_return λ _.
      get_api_response (o.api (attestation_of tx.txid)) or_return λ resp_attestation.
      field "merkle_root" resp_attestation >>= as_scalar >>= as_text >>= λ root.
      verify_tx_addr v tx root or_return λ _.
      verify_commitment v root (get_api_response (o.api (commitment_of root v.position)))
