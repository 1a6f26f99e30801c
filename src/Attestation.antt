-- ===== src/Attestation.antt =====
-- models/attestation.go: an attestation transaction with the commitment it attests.
use mainstay.Prelude.{Bool, false, List, [], ◌∷◌, String, Option, none, some}
use mainstay.Prelude.Int.{ℤ, pos}
use mainstay.Hashing.{Hashing}
use mainstay.Wire.{Wire, MsgTx, TxOut, GetTransactionResult, Result, ok, err}
use mainstay.Merkle.Commitment.{Commitment, get_commitment_hash}

pub record AttestationInfo : Type 0 where
  pub txid : String
  pub blockhash : String
  pub amount : ℤ
  pub time : ℤ

-- The pointer `commitment` may be nil.
pub record Attestation (Hash : Type 0) : Type 0 where
  pub txid : Hash
  pub tx : MsgTx Hash
  pub confirmed : Bool
  pub info : AttestationInfo
  pub commitment : Option (Commitment Hash)

abbrev pub error_commitment_not_defined : String
error_commitment_not_defined = "Commitment not defined"

abbrev pub no_info : AttestationInfo
no_info = record { txid = ""; blockhash = ""; amount = pos 0; time = pos 0 }

abbrev pub blank_tx : {Hash : Type 0} → MsgTx Hash
blank_tx = record { tx_in = []; tx_out = [] }

unfoldable pub new_attestation : {Hash : Type 0} → Hash → Commitment Hash → Attestation Hash
new_attestation txid commitment = record {
  txid = txid;
  tx = blank_tx;
  confirmed = false;
  info = no_info;
  commitment = some commitment;
}

-- `len(a.Tx.TxOut) > 0`
abbrev amount_of : List TxOut → ℤ
amount_of [] = pos 0
amount_of (out ∷ _) = out.value

unfoldable pub set_commitment :
    {Hash : Type 0} → Commitment Hash → Attestation Hash → Attestation Hash
set_commitment commitment a = record a { commitment = some commitment }

-- The method `Commitment`.
unfoldable pub commitment_of : {Hash : Type 0} → Attestation Hash → Result (Commitment Hash)
commitment_of a = elim a.commitment [
  | none ↦ err error_commitment_not_defined
  | some commitment ↦ ok commitment
]

module _ {Hash : Type 0} ⦃c : Hashing Hash⦄ where
  unfoldable pub new_attestation_default : Attestation Hash
  new_attestation_default = record {
    txid = c.zero_hash;
    tx = blank_tx;
    confirmed = false;
    info = no_info;
    commitment = none;
  }

  unfoldable pub commitment_hash : Attestation Hash → Hash
  commitment_hash a = elim a.commitment [
    | none ↦ c.zero_hash
    | some commitment ↦ get_commitment_hash commitment
  ]

  unfoldable pub update_info :
      ⦃w : Wire Hash⦄ → GetTransactionResult → Attestation Hash → Attestation Hash
  update_info ⦃w⦄ tx a = record a {
    info = record {
      txid = w.hash_string a.txid;
      blockhash = tx.block_hash;
      amount = amount_of a.tx.tx_out;
      time = tx.time;
    };
  }
