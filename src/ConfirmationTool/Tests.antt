-- ===== src/ConfirmationTool/Tests.antt =====
-- A run of the tool over a staychain of two transactions.
use mainstay.Prelude.{ℕ, ◌+◌, ◌≡◌, refl, arith, true, false, some, none, List, [], ◌∷◌, map, length}
use mainstay.Prelude.Int.{pos, negsuc}
use mainstay.Hex.{decode_string}
use mainstay.Wire.{MsgTx, ok, err}
use mainstay.Wire.Toy.{toy_wire}
use mainstay.Hashing.Toy.{toy_hashing}
use mainstay.Merkle.Tree.{hash_leaves}
use mainstay.Merkle.Proof.{prove_merkle_proof}
use mainstay.Tweak.{tweak_extended_key}
use mainstay.Script.Multisig.{parse_redeem_script}
use mainstay.Text.{split_commas}
use mainstay.Config.Load as Load
use mainstay.Staychain.{
  Tx, Node, Chain, ChainFetcher, Reach, here, there, fetched, sent, taken, fetch, new_chain,
  new_chain_fetcher,
}
use mainstay.Staychain.Order.{asked, IsOrdered}
use mainstay.Verifier.{
  Answer, Query, response, attestation_of, commitment_of, proof_of, scalar, list, text, flag,
  Outside, ChainVerifier, verify,
}
use mainstay.Verifier.New.{new_chain_verifier}
use mainstay.ConfirmationTool.{
  Flags, get_raw_tx_from_hash, start, verify_updates, print_attestation, init,
}
use mainstay.ConfirmationTool.Confirmed.{AreConfirmed, verify_updates-AreConfirmed}

abbrev base : Tx
base = record { txid = "one"; block_hash = "two"; vout = ("address" ∷ []) ∷ [] }

abbrev node : Node ℕ
node = record {
  get_block_count = ok 5;
  get_block_hash = λ height. ok height;
  get_block = λ hash. ok [];
  get_raw_transaction_verbose = λ hash. ok base;
  get_block_header_height = λ hash. ok 2;
}

abbrev api : Query → Answer
api (attestation_of txid) = response (("merkle_root", scalar (text "many")) ∷ [])
api (commitment_of root position) = response (("commitment", scalar (text "one")) ∷ [])
api (proof_of position root) =
    response
      (("ops", list (some (("append", flag true) ∷ ("commitment", text "one") ∷ []) ∷ [])) ∷ [])

abbrev outside : Outside ℕ ℕ ℕ ℕ
outside = record {
  api = api;
  get_block_height = λ hash. ok (pos (hash + 7));
  child = λ key i. ok (key + i);
  ec_pub_key = λ key. ok key;
  new_extended_key = λ key chaincode. length chaincode;
  address_string = λ address. "address";
  keys = record {
    serialize_compressed = λ key. key ∷ [];
    parse_pub_key = λ bytes. some (length bytes);
    script_hash_address = λ script. length script;
  };
}

-- One key of 33 bytes, with its chaincode.
abbrev flags : Flags
flags = record {
  show_details = false;
  tx = "one";
  script = "512102020202020202020202020202020202020202020202020202020202020202020251ae";
  chaincodes = "0202020202020202020202020202020202020202020202020202020202020202";
  position = pos 0;
}

abbrev fetcher : ChainFetcher
fetcher = record { txid0 = "one"; latest_tx = base; latest_height = 2 }

abbrev verifier : ChainVerifier ℕ
verifier = record { position = pos 0; pubkeys = 32 ∷ []; num_of_sigs = 1 }

started : start toy_wire node outside flags ≡ some (new_chain fetcher, verifier)
unfolding start new_chain_fetcher new_chain_verifier parse_redeem_script split_commas decode_string
started = refl

abbrev next : Tx
next = record { txid = "two"; block_hash = "many"; vout = ("address" ∷ []) ∷ [] }

-- It spends the first output of the initial transaction.
abbrev spending : MsgTx ℕ
spending = record {
  tx_in =
      record { previous_hash = 1; previous_index = 0; signature_script = []; sequence = 0 } ∷ [];
  tx_out = [];
}

-- The node later, with a block that holds the next transaction.
abbrev later : Node ℕ
later = record node {
  get_block_count = ok 3;
  get_block = λ hash. ok (spending ∷ []);
  get_raw_transaction_verbose = λ hash. ok next;
}

abbrev moved : ChainFetcher
moved = record { txid0 = "one"; latest_tx = next; latest_height = 3 }

fetch-next : fetch toy_wire later fetcher ≡ some (moved, next ∷ [])
unfolding fetch
fetch-next = refl

-- The initial transaction is sent and taken; the next one is fetched, sent and taken.
abbrev after : Chain
after = record { fetcher = moved; pending = []; updates = []; received = base ∷ next ∷ [] }

abbrev base_taken : Chain
base_taken = record { fetcher = fetcher; pending = []; updates = []; received = base ∷ [] }

Reach-base_taken : Reach toy_wire (new_chain fetcher) base_taken
unfolding new_chain
Reach-base_taken = there (there here (sent (new_chain fetcher) base [] refl (omega arith))) (
    taken (record { fetcher = fetcher; pending = []; updates = base ∷ []; received = [] }) base []
      refl)

Reach-after : Reach toy_wire (new_chain fetcher) after
Reach-after =
    there
      (there (there Reach-base_taken (fetched base_taken later moved (next ∷ []) fetch-next)) (
        sent (record base_taken { fetcher = moved; pending = next ∷ [] }) next [] refl
          (omega arith)))
      (taken (record base_taken { fetcher = moved; updates = next ∷ [] }) next [] refl)

abbrev answers : Tx → Outside ℕ ℕ ℕ ℕ
answers tx = outside

abbrev updates : List (Outside ℕ ℕ ℕ ℕ × Tx)
updates = map (λ tx. (answers tx, tx)) after.received

verify_updates-AreConfirmed_example :
    (first : Tx) × (get_raw_tx_from_hash toy_wire node flags.tx ≡ some first)
    × IsOrdered toy_wire (asked toy_wire Reach-after) first after
    × AreConfirmed toy_wire verifier updates (verify_updates toy_wire verifier updates)
verify_updates-AreConfirmed_example =
    verify_updates-AreConfirmed toy_wire node outside flags (new_chain fetcher) after verifier
      answers started Reach-after

printed : verify_updates toy_wire verifier updates ≡ (
  (base, record { hash = 1; height = pos 8 }) ∷ (next, record { hash = 1; height = pos 8 }) ∷ [],
  true,
)
unfolding verify_updates verify tweak_extended_key prove_merkle_proof hash_leaves
printed = refl

printed_lines :
    print_attestation {Hash = ℕ} flags base (record { hash = 0; height = pos 0 })
    ≡ ((none, some "two"), none)
unfolding print_attestation
printed_lines = refl

abbrev no_file : Load.Outside ℕ
no_file = record {
  getenv = λ name. "";
  read_file = λ name. err "no file";
  new_client = λ conn. ok 0;
}

no_position : init no_file (record flags { position = negsuc 0 }) ≡ none
unfolding init
no_position = refl

no_conf : init no_file flags ≡ none
unfolding init
no_conf = refl
