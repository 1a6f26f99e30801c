-- ===== src/Verifier/New.antt =====
-- staychain/chainverifier.go: the constructor of the verifier, and the loops over keys and
-- chaincodes that attestation/attestclient.go has in the same form.
use mainstay.Prelude.{
  ℕ, Bool, not, ◌||◌, Option, none, some, List, [], ◌∷◌, ◌==◌, if◌then◌else◌, length,
}
use mainstay.Prelude.Int.{ℤ}
use mainstay.Prelude.Panic.{◌>>=◌}
use mainstay.Hex.{decode_string}
use mainstay.Script.Multisig.{parse_redeem_script}
use mainstay.Verifier.{Outside, ChainVerifier}

-- The bytes of a chaincode; another size or an error ends the process.
abbrev chaincode_bytes : List ℕ × Bool → Option (List ℕ)
chaincode_bytes (bytes, fine) = if not fine || not (length bytes == 32) then none else some bytes

unfoldable pub all_chaincodes : List (List ℕ) → Option (List (List ℕ))
all_chaincodes [] = some []
all_chaincodes (chaincode ∷ rest) = chaincode_bytes (decode_string chaincode) >>= λ bytes.
    all_chaincodes rest >>= λ chaincodes. some (bytes ∷ chaincodes)

unfoldable pub extended_keys :
    {Key Pub : Type 0} → (Pub → List ℕ → Key) → List Pub → List (List ℕ) → List Key
extended_keys new [] chaincodes = []
extended_keys new (key ∷ keys) [] = []
extended_keys new (key ∷ keys) (chaincode ∷ chaincodes) =
    new key chaincode ∷ extended_keys new keys chaincodes

-- The script and the chaincodes are the bytes of hexadecimal texts.
unfoldable pub new_chain_verifier :
    {Hash Key Pub Address : Type 0}
    → Outside Hash Key Pub Address
    → ℤ
    → List ℕ
    → List (List ℕ)
    → Option (ChainVerifier Key)
unfolding all_chaincodes extended_keys parse_redeem_script
new_chain_verifier o position script chaincodes_str =
    parse_redeem_script o.keys script >>= λ (pubkeys, num_of_sigs).
    (if length chaincodes_str == length pubkeys then all_chaincodes chaincodes_str else none)
    >>= λ chaincodes. some (record {
      position = position;
      pubkeys =
          extended_keys
            (λ key chaincode. o.new_extended_key (o.keys.serialize_compressed key) chaincode)
            pubkeys chaincodes;
      num_of_sigs = num_of_sigs;
    })
