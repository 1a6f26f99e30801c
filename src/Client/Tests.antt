-- ===== src/Client/Tests.antt =====
-- The client's search of the subchain, with hashes that are numbers.
use mainstay.Prelude.{
  arith, false, ℕ, ◌≡◌, ◌↔◌, refl, true, Option, none, some, [], ◌∷◌, if◌then◌else◌, ◌==◌,
}
use mainstay.Prelude.Int.{pos, ◌-ℤ◌, ◌*ℤ◌}
use mainstay.Fees.{bump_fee}
use mainstay.Client.{AttestClient}
use mainstay.Client.Tx.{calc_signed_tx_size, remove_sigs, bump_attestation_fees}
use mainstay.Client.Bump.{signed_size, bump_attestation_fees-pays}
use mainstay.Wire.{MsgTx}
use mainstay.Wire.Toy.{toy_wire}
use mainstay.Client.Chain.{verify_tx_on_subchain}
use mainstay.Client.Found.{OnSubchain, verify_tx_on_subchain-OnSubchain}

abbrev spends : ℕ → MsgTx ℕ
spends n = record {
  tx_in =
      record { previous_hash = n; previous_index = 0; signature_script = []; sequence = 0 } ∷ [];
  tx_out = [];
}

-- 2 spends 1, which spends the base transaction 0.
abbrev raw : ℕ → Option (MsgTx ℕ)
raw n = if n == 2 then some (spends 1) else if n == 1 then some (spends 0) else none

two_steps : verify_tx_on_subchain raw "base" 3 2 ≡ some true
unfolding verify_tx_on_subchain
two_steps = refl

verify_tx_on_subchain-OnSubchain_example :
    ((fuel : ℕ) × (verify_tx_on_subchain raw "base" fuel 2 ≡ some true)) ↔ OnSubchain raw "base" 2
verify_tx_on_subchain-OnSubchain_example = verify_tx_on_subchain-OnSubchain raw "base" 2

abbrev client : AttestClient
client = record {
  fees = record {
    min_fee = pos 5;
    max_fee = pos 30;
    fee_increment = pos 10;
    current_fee = pos 12;
    prev_fee = pos 0;
  };
  txid0 = "base";
  script0 = 48 ∷ 48 ∷ [];
  num_of_sigs = 1;
  addr_topup = "";
  script_topup = [];
  wallet_priv = false;
}

-- Out of 1,000,000 it pays 12 for each of 159 bytes; its input is signed.
abbrev paying : MsgTx ℕ
paying = record {
  tx_in =
      record { previous_hash = 0; previous_index = 0; signature_script = 9 ∷ []; sequence = 0 }
      ∷ [];
  tx_out = record { value = pos 998092; pk_script = [] } ∷ [];
}

paying_size : signed_size client paying ≡ 159
unfolding calc_signed_tx_size remove_sigs
paying_size = refl

bump_attestation_fees-pays_example :
    bump_attestation_fees paying false client
    ≡ some (
      record client { fees = bump_fee client.fees },
      record (remove_sigs paying) {
        tx_out =
            record {
              value =
                  pos 1000000
                  -ℤ ((bump_fee client.fees).current_fee *ℤ pos (signed_size client paying));
              pk_script = [];
            }
            ∷ [];
      },
    )
unfolding calc_signed_tx_size remove_sigs ◌-ℤ◌ ◌*ℤ◌
bump_attestation_fees-pays_example =
    bump_attestation_fees-pays client paying (record { value = pos 998092; pk_script = [] }) []
      1000000 (ground arith) (omega arith) (omega arith) (omega arith) refl refl
