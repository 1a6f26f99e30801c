-- ===== src/Client/SignTests.antt =====
-- Runs of the keys and signatures of the client, and the theorem of Signed at concrete inputs.
use mainstay.Prelude.{
  ℕ, ◌+◌, ◌≡◌, refl, arith, true, false, none, some, List, [], ◌∷◌, length, ◌==◌,
}
use mainstay.Prelude.Int.{pos}
use mainstay.Wire.{MsgTx, TxIn, ok, err}
use mainstay.Wire.Toy.{toy_wire}
use mainstay.Hashing.Toy.{toy_hashing}
use mainstay.Fees.{AttestFees, request_failed}
use mainstay.Hex.{decode_string}
use mainstay.Script.{Sig, parse_script_sig}
use mainstay.Client.Keys.{KeyClient, KeyTools, get_next_attestation_key, get_script_from_hash}
use mainstay.Client.Sign.{get_transaction_pre_images, sign_attestation, error_sigs_missing_for_tx}
use mainstay.Config.Load.{Config}
use mainstay.Config.Rpc.{regression_net_params}
use mainstay.Client.New.{new_attest_client}
use mainstay.Client.NoTopup.{new_attest_client_no_topup}
use mainstay.Client.Signed.{HasSigs, sign_attestation-HasSigs}

-- Keys are numbers, and an address is the number of bytes that it is made of.
abbrev tools : KeyTools ℕ ℕ ℕ
tools = record {
  keys = record {
    serialize_compressed = λ key. key ∷ [];
    parse_pub_key = λ bytes. some (length bytes);
    script_hash_address = λ script. length script;
  };
  curve = record {
    order = 97;
    point = λ d. d;
    add = λ a b. a + b;
    serialize_compressed = λ key. key ∷ [];
    new_wif = λ d compressed. ok (record { priv_key = d; compress_pub_key = compressed });
    decode_wif = λ s. err "malformed private key";
    new_address_pub_key_hash = λ bytes. ok (length bytes);
    hash160 = λ bytes. bytes;
    address_string = λ address. "address";
  };
  serialize_priv = λ d. d ∷ [];
  new_extended_priv = λ key chaincode. length key;
  new_extended_pub = λ key chaincode. length key;
  child = λ key i. ok (key + i);
  ec_pub_key = λ key. ok key;
  ec_priv_key = λ key. ok key;
  is_equal = ◌==◌;
}

abbrev fees : AttestFees
fees = record {
  min_fee = pos 10;
  max_fee = pos 100;
  fee_increment = pos 5;
  current_fee = pos 20;
  prev_fee = pos 0;
}

-- The scripts are the texts 5121 and 51ae.
abbrev client : KeyClient ℕ ℕ
client = record {
  base = record {
    fees = fees;
    txid0 = "base";
    script0 = 53 ∷ 49 ∷ 50 ∷ 49 ∷ [];
    num_of_sigs = 1;
    addr_topup = "";
    script_topup = 53 ∷ 49 ∷ 97 ∷ 101 ∷ [];
    wallet_priv = false;
  };
  pubkeys_extended = 5 ∷ [];
  pubkeys = 5 ∷ [];
  chaincodes = [];
  wallet_priv = none;
  wallet_priv_topup = none;
  wallet_chain_code = [];
}

abbrev input : ℕ → TxIn ℕ
input hash = record {
  previous_hash = hash;
  previous_index = 0;
  signature_script = [];
  sequence = 0;
}

abbrev tx : MsgTx ℕ
tx = record {
  tx_in = input 1 ∷ input 2 ∷ [];
  tx_out = record { value = pos 100; pk_script = [] } ∷ [];
}

abbrev sigs : List (List Sig)
sigs = ((48 ∷ 1 ∷ []) ∷ (48 ∷ 2 ∷ []) ∷ []) ∷ ((48 ∷ 3 ∷ []) ∷ []) ∷ []

script_zero : get_script_from_hash {Hash = ℕ} tools client 0 ≡ some (ok (53 ∷ 49 ∷ 50 ∷ 49 ∷ []))
unfolding get_script_from_hash
script_zero = refl

no_key : get_next_attestation_key {Hash = ℕ} tools client 3 ≡ ok none
unfolding get_next_attestation_key
no_key = refl

-- One image for each input, with the script for it.
images :
    get_transaction_pre_images toy_wire tools client 0 tx
    ≡ some (
        ok (
          record tx { tx_in = record (input 1) { signature_script = 81 ∷ 33 ∷ [] } ∷ input 2 ∷ [] }
          ∷ record tx {
            tx_in = input 1 ∷ record (input 2) { signature_script = 81 ∷ 174 ∷ [] } ∷ [];
          }
          ∷ []))
unfolding get_transaction_pre_images decode_string
images = refl

-- With signatures for one input of two there is an error.
sigs_missing :
    sign_attestation toy_wire tools client
      (λ hash. err "unknown")
      (λ t inputs. err "no key")
      tx
      (((48 ∷ 1 ∷ []) ∷ []) ∷ [])
      0
    ≡ some (err error_sigs_missing_for_tx)
unfolding sign_attestation parse_script_sig
sigs_missing = refl

sign_attestation-HasSigs_example :
    (signed : MsgTx ℕ) × (sign_attestation toy_wire tools client
        (λ hash. err "unknown")
        (λ t inputs. err "no key")
        tx
        sigs
        0
      ≡ some (ok signed))
    × (signed.tx_out ≡ tx.tx_out)
    × HasSigs client.base (53 ∷ 49 ∷ 50 ∷ 49 ∷ []) 0 tx.tx_in sigs signed.tx_in
unfolding decode_string
sign_attestation-HasSigs_example =
    sign_attestation-HasSigs toy_wire tools client (λ hash. err "unknown")
      (λ t inputs. err "no key") tx sigs 0 (53 ∷ 49 ∷ 50 ∷ 49 ∷ []) refl script_zero (omega arith)
      (omega arith) (omega arith)
      (refl, omega arith, omega arith, (refl, omega arith, omega arith, tt))

-- A multisig, and no topup.
abbrev config : Config ℕ
config = record {
  main_client = 0;
  main_chain_cfg = regression_net_params;
  regtest = true;
  init_tx = "base";
  init_pk = "";
  init_script = "5150ae";
  init_chaincodes = [];
  topup_address = "";
  topup_script = "";
  topup_pk = "";
  topup_chaincodes = [];
  signer_config = record { url = "" };
  db_config = record { user = ""; password = ""; host = ""; port = ""; name = "" };
  fees_config = record { min_fee = pos 5; max_fee = pos 30; fee_increment = pos 5 };
  timing_config = record { new_attestation_minutes = pos 0; handle_unconfirmed_minutes = pos 0 };
}

new_attest_client_no_topup_example :
    new_attest_client tools request_failed config (false ∷ []) ≡ none
new_attest_client_no_topup_example =
    new_attest_client_no_topup tools request_failed config (false ∷ []) refl refl
