-- ===== src/Service/Tests.antt =====
-- The service on concrete answers, with hashes that are numbers.
use mainstay.Prelude.{ℕ, arith, ◌*◌, ◌≡◌, ◌≢◌, refl, false, Option, some, none, List, [], ◌∷◌}
use mainstay.Prelude.Int.{ℤ, pos, wrap64, ◌*ℤ◌}
use mainstay.Hashing.Toy.{toy_hashing}
use mainstay.Wire.{MsgTx, ListUnspentResult, ok}
use mainstay.Wire.Toy.{toy_wire}
use mainstay.Fees.{request_failed}
use mainstay.Merkle.Commitment.{Commitment, get_commitment_hash}
use mainstay.Attestation.{Attestation, commitment_hash, new_attestation_default}
use mainstay.Client.{AttestClient}
use mainstay.Client.Tx.{create_attestation, bump_attestation_fees}
use mainstay.Service.Progress.{rounds-send}
use mainstay.Service.{
  update_latest_attestation, send_attestation, AttestService, Replies, Effect, AttestationState,
  astate_await_confirmation, astate_handle_unconfirmed, astate_sign_attestation,
  astate_new_attestation, second,
}
use mainstay.Service.Run.{rounds, do_attestation, run, new_attest_service}
use mainstay.Service.Init.{do_state_init}
use mainstay.Service.Create.{
  last_commitment_for, do_state_next_commitment, do_state_new_attestation,
  do_state_sign_attestation, do_state_pre_send_store, do_state_send_attestation,
}
use mainstay.Service.Confirm.{do_state_await_confirmation, do_state_handle_unconfirmed}
use mainstay.Service.Hoare.{After}
use mainstay.Service.Diagram.{Next, Reports, do_attestation-Next}
use mainstay.Service.Flag.{FlagClear, run-FlagClear}
use mainstay.Service.Store.{StoredFirst, new_attest_service-StoredFirst}
use mainstay.Service.Notify.{
  NotAsked, Awaited, do_attestation-keeps_sigs, do_state_await_confirmation-Awaited,
}

abbrev client : AttestClient
client = record {
  fees = record {
    min_fee = pos 5;
    max_fee = pos 30;
    fee_increment = pos 10;
    current_fee = pos 12;
    prev_fee = pos 0;
  };
  txid0 = "base";
  script0 = 48 ∷ 48 ∷ [];
  num_of_sigs = 1;
  addr_topup = "";
  script_topup = [];
  wallet_priv = false;
}

abbrev commitment : Commitment ℕ
commitment = record { tree = record { commitments = 1 ∷ []; tree_store = some 1 ∷ []; root = 1 } }

abbrev no_commitment : Commitment ℕ
no_commitment = record { tree = record { commitments = []; tree_store = []; root = 0 } }

abbrev unspent : ListUnspentResult
unspent = record { tx_id = "base"; vout = 0; address = "a"; amount = pos 1000000 }

abbrev new_tx : MsgTx ℕ
new_tx = record {
  tx_in =
      record { previous_hash = 0; previous_index = 0; signature_script = []; sequence = 0 } ∷ [];
  tx_out = record { value = pos 1000000; pk_script = [] } ∷ [];
}

-- Every call succeeds; the last unspent transaction is the base transaction, and the mempool is
-- empty. The time since a sending is the argument.
abbrev answers : ℤ → Replies ℕ
answers elapsed = record {
  unconfirmed_tx = some (ok none);
  last_unspent = some (ok (some unspent));
  topup_unspent = ok none;
  next_key = λ h. ok none;
  next_addr = λ n key h. ok "paytoaddr";
  import_addr = λ n addr rescan. none;
  create_raw_transaction = λ inputs addr amount. ok new_tx;
  pre_images = λ h tx. ok (tx ∷ []);
  sign = λ tx sigs h. some (tx, ok tx);
  send = λ tx. ok 2;
  attestation_commitment = λ txid confirmed. ok no_commitment;
  latest_hash = λ confirmed. ok 0;
  client_commitment = some (ok commitment);
  update_latest = λ a. none;
  get_sigs = λ tx_hash script root. some (((1 ∷ []) ∷ []) ∷ []);
  raw_transaction = λ h. some new_tx;
  raw_verbose = λ h. some (record { hash = "base"; vin_asm = (48 ∷ 32 ∷ 51 ∷ []) ∷ [] });
  wallet_transaction = λ h. ok (record { block_hash = ""; time = pos 0 });
  mempool_entry = λ txid. ok (record { fee = pos 1200; time = pos 5 });
  fee_response = request_failed;
  since = λ n t. elapsed;
  now = pos 7;
}

abbrev prompt : Replies ℕ
prompt = answers (pos 0)

abbrev late : Replies ℕ
late = answers (pos 9999999999999)

abbrev started : AttestService ℕ
started = new_attest_service client (pos 60) (pos 60) false

abbrev six_rounds : List (Replies ℕ)
six_rounds = prompt ∷ prompt ∷ prompt ∷ prompt ∷ prompt ∷ prompt ∷ []

-- From the start to the sent attestation, the time-out, and the second signing.
abbrev eight_rounds : List (Replies ℕ)
eight_rounds = prompt ∷ prompt ∷ prompt ∷ prompt ∷ prompt ∷ prompt ∷ late ∷ late ∷ []

abbrev state_after : Option (AttestService ℕ × List (Effect ℕ)) → Option AttestationState
state_after none = none
state_after (some (t, fx)) = some (t.state)

six_rounds-send : state_after (run six_rounds started) ≡ some astate_await_confirmation
unfolding run new_attest_service do_state_init do_state_next_commitment do_state_new_attestation
    do_state_sign_attestation do_state_pre_send_store do_state_send_attestation
    do_state_await_confirmation do_state_handle_unconfirmed get_commitment_hash commitment_hash
    new_attestation_default create_attestation wrap64 ◌*ℤ◌
six_rounds-send = refl

eight_rounds-resign : state_after (run eight_rounds started) ≡ some astate_sign_attestation
unfolding run new_attest_service do_state_init do_state_next_commitment do_state_new_attestation
    do_state_sign_attestation do_state_pre_send_store do_state_send_attestation
    do_state_await_confirmation do_state_handle_unconfirmed get_commitment_hash commitment_hash
    new_attestation_default create_attestation wrap64 ◌*ℤ◌ bump_attestation_fees
eight_rounds-resign = refl

do_attestation-Next_example :
    After (λ t fx. Next started.state t.state × Reports t t.state) (do_attestation prompt started)
do_attestation-Next_example = do_attestation-Next prompt started

run-FlagClear_example : After (λ t fx. FlagClear t.state t.is_fee_bumped) (run eight_rounds started)
run-FlagClear_example = run-FlagClear eight_rounds client (pos 60) (pos 60) false

new_attest_service-StoredFirst_example :
    StoredFirst none eight_rounds (record started { attest_delay = pos (10 * second) })
new_attest_service-StoredFirst_example =
    new_attest_service-StoredFirst eight_rounds client (pos 60) (pos 60) false

-- An attestation that waits.
abbrev waiting : AttestService ℕ
waiting = record started {
  state = astate_handle_unconfirmed;
  attestation = record started.attestation { tx = new_tx; commitment = some commitment };
  sigs = ((9 ∷ []) ∷ []) ∷ [];
}

not_new : astate_handle_unconfirmed ≢ astate_new_attestation
not_new = λ e. ground arith

do_attestation-keeps_sigs_example :
    After (λ t fx. (t.sigs ≡ ((9 ∷ []) ∷ []) ∷ []) × NotAsked fx) (do_attestation prompt waiting)
do_attestation-keeps_sigs_example = do_attestation-keeps_sigs prompt waiting not_new

do_state_await_confirmation-Awaited_example :
    After (Awaited prompt waiting) (do_state_await_confirmation prompt waiting)
do_state_await_confirmation-Awaited_example = do_state_await_confirmation-Awaited prompt waiting

abbrev signing : AttestService ℕ
signing = record waiting { state = astate_sign_attestation }

rounds-send_example :
    let att : Attestation ℕ = record signing.attestation { tx = new_tx; txid = 101 } in
    (t : AttestService ℕ) × (rounds (prompt ∷ prompt ∷ prompt ∷ []) signing
      ≡ some (t, update_latest_attestation att ∷ send_attestation new_tx ∷ []))
    × (t.state ≡ astate_await_confirmation)
    × (t.attestation ≡ record att { txid = 2 })
    × (t.is_fee_bumped ≡ false)
unfolding last_commitment_for new_attest_service
rounds-send_example =
    rounds-send prompt signing 0 0 2 new_tx new_tx refl refl refl refl refl refl refl
