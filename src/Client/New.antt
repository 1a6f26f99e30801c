-- ===== src/Client/New.antt =====
-- attestation/attestclient.go: the constructors of the client. `none` is the end of the process by
-- `log.Error`, or a panic. The configured texts are ASCII, so that a byte is a character.
use mainstay.Prelude.{
  ℕ, Bool, true, false, not, ◌&&◌, Option, none, some, List, [], ◌∷◌, map, ◌==◌, if◌then◌else◌,
  length,
}
use mainstay.Prelude.Panic.{◌>>=◌}
use mainstay.Fees.{FeeResponse, new_attest_fees}
use mainstay.Config.Load.{Config, is_empty}
use mainstay.Text.{bytes_of}
use mainstay.Script.Multisig.{parse_redeem_script}
use mainstay.Tweak.{Wif}
use mainstay.Client.{AttestClient}
use mainstay.Client.Keys.{KeyClient, KeyTools, or_nil}
use mainstay.Verifier.New.{all_chaincodes, extended_keys}

abbrev is_some : {A : Type 0} → Option A → Bool
is_some none = false
is_some (some a) = true

abbrev pub first_flag : List Bool → Bool
first_flag [] = false
first_flag (b ∷ _) = b

-- The chaincode of the last key that is equal to ours.
unfoldable pub chaincode_for :
    {Pub : Type 0} → (Pub → Bool) → List Pub → List (List ℕ) → Option (List ℕ) → Option (List ℕ)
chaincode_for ours [] chaincodes found = found
chaincode_for ours (key ∷ keys) [] found = found
chaincode_for ours (key ∷ keys) (chaincode ∷ chaincodes) found =
    chaincode_for ours keys chaincodes (if ours key then some chaincode else found)

module _ {Client Key Pub Address : Type 0} (t : KeyTools Key Pub Address) (fee_answer : FeeResponse)
    (config : Config Client) where
  unfoldable pub parse_topup_keys : Bool → Option (Option Wif)
  parse_topup_keys false = some none
  parse_topup_keys true =
      if is_empty config.topup_pk
      then some none
      else (or_nil (t.curve.decode_wif config.topup_pk) >>= λ topup_wif. some (some topup_wif))

  unfoldable pub parse_main_keys : Bool → Option (Option Wif)
  parse_main_keys true = or_nil (t.curve.decode_wif config.init_pk) >>= λ wif. some (some wif)
  parse_main_keys false = if is_empty config.init_script then none else some none

  -- The fields that both kinds of client set alike.
  abbrev base_client : List ℕ → ℕ → Bool → AttestClient
  base_client script0 num_of_sigs signs = record {
    fees = new_attest_fees fee_answer config.fees_config;
    txid0 = config.init_tx;
    script0 = script0;
    num_of_sigs = num_of_sigs;
    addr_topup = config.topup_address;
    script_topup = bytes_of config.topup_script;
    wallet_priv = signs;
  }

  unfoldable pub new_non_multisig_attest_client : Option Wif → Option Wif → KeyClient Key Pub
  new_non_multisig_attest_client wif wif_topup = record {
    base = base_client [] 1 (is_some wif);
    pubkeys_extended = [];
    pubkeys = [];
    chaincodes = [];
    wallet_priv = wif;
    wallet_priv_topup = wif_topup;
    wallet_chain_code = [];
  }

  -- A signer's key must be one of the keys of the multisig.
  unfoldable pub my_chaincode : Bool → Option Wif → List Pub → List (List ℕ) → Option (List ℕ)
  unfolding chaincode_for
  my_chaincode false wif pubkeys chaincodes = some []
  my_chaincode true wif pubkeys chaincodes =
      wif >>= λ own. chaincode_for (t.is_equal (t.curve.point own.priv_key)) pubkeys chaincodes none

  unfoldable pub new_multisig_attest_client :
      Bool → Option Wif → Option Wif → Option (KeyClient Key Pub)
  unfolding my_chaincode all_chaincodes extended_keys parse_redeem_script
  new_multisig_attest_client is_signer wif wif_topup =
      parse_redeem_script t.keys (bytes_of config.init_script) >>= λ (pubkeys, num_of_sigs).
      parse_redeem_script t.keys (bytes_of config.topup_script) >>= λ (_, top_up_num_of_sigs).
      (if num_of_sigs == top_up_num_of_sigs && length config.init_chaincodes == length pubkeys
        then all_chaincodes (map bytes_of config.init_chaincodes)
        else none)
      >>= λ chaincodes. my_chaincode is_signer wif pubkeys chaincodes >>= λ chaincode.
          some (record {
            base = base_client (bytes_of config.init_script) num_of_sigs (is_some wif);
            pubkeys_extended =
                extended_keys (λ key cc. t.new_extended_pub (t.keys.serialize_compressed key) cc)
                  pubkeys chaincodes;
            pubkeys = pubkeys;
            chaincodes = chaincodes;
            wallet_priv = wif;
            wallet_priv_topup = wif_topup;
            wallet_chain_code = chaincode;
          })

  -- The last part of NewAttestClient.
  unfoldable pub client_for : Bool → Option Wif → Option Wif → Option (KeyClient Key Pub)
  unfolding new_multisig_attest_client new_non_multisig_attest_client
  client_for is_signer pk_wif_topup pk_wif =
      if is_empty config.init_script
      then some (new_non_multisig_attest_client pk_wif pk_wif_topup)
      else new_multisig_attest_client is_signer pk_wif pk_wif_topup

  -- The key for topups, where they are configured. That the import of the topup address may
  -- fail is only a warning, and left out.
  unfoldable pub topup_key : Bool → Option (Option Wif)
  unfolding parse_topup_keys
  topup_key is_signer =
      if not (is_empty config.topup_address) && not (is_empty config.topup_script)
      then parse_topup_keys is_signer
      else some none

  unfoldable pub new_attest_client : List Bool → Option (KeyClient Key Pub)
  unfolding topup_key parse_main_keys client_for
  new_attest_client signer_flag =
      let is_signer = first_flag signer_flag in
      topup_key is_signer >>= λ pk_wif_topup.
      parse_main_keys is_signer >>= client_for is_signer pk_wif_topup
