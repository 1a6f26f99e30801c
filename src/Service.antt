-- ===== src/Service.antt =====
-- attestation/attestservice.go: the state machine of the attestation service. The struct and the
-- package variables are one record. A step takes the answers of the calls it may make and gives
-- the new record with the calls that have an effect outside, in order; `none` is a panic.
pub mod Init
pub mod Create
pub mod Confirm
pub mod Run
pub mod Hoare
pub mod Diagram
pub mod Flag
pub mod Store
pub mod Notify
pub mod Progress
mod Tests
use mainstay.Prelude.{ℕ, Bool, String, Option, none, some, List, [], ◌∷◌, ◌++◌}
use mainstay.Prelude.Int.{ℤ, pos}
use mainstay.Wire.{
  MsgTx, ListUnspentResult, GetTransactionResult, GetMempoolEntryResult, Result, ok, err,
}
use mainstay.Script.{Sig}
use mainstay.Fees.{FeeResponse}
use mainstay.Merkle.Commitment.{Commitment}
use mainstay.Attestation.{Attestation}
use mainstay.Client.{AttestClient}

pub data AttestationState : Type 0 where
  astate_error astate_init astate_next_commitment astate_new_attestation : AttestationState
  astate_sign_attestation astate_pre_send_store astate_send_attestation : AttestationState
  astate_await_confirmation astate_handle_unconfirmed : AttestationState

-- A `time.Duration` counts nanoseconds.
abbrev pub second : ℕ
second = 1000000000

abbrev pub atime_fixed : ℤ
atime_fixed = pos 1000000000

abbrev pub atime_sigs : ℤ
atime_sigs = pos 60000000000

abbrev pub atime_skip : ℤ
atime_skip = pos 60000000000

abbrev pub atime_confirmation : ℤ
atime_confirmation = pos 900000000000

abbrev pub default_atime_new_attestation : ℤ
default_atime_new_attestation = pos 3600000000000

abbrev pub default_atime_handle_unconfirmed : ℤ
default_atime_handle_unconfirmed = pos 3600000000000

abbrev pub erro_unspent_not_found : String
erro_unspent_not_found = "No valid unspent found"

-- A `time.Time` is a ℤ; `attester` is the client, whose fees change.
pub record AttestService (Hash : Type 0) : Type 0 where
  pub attester : AttestClient
  pub state : AttestationState
  pub attestation : Attestation Hash
  pub error_state : Option String
  pub is_regtest : Bool
  pub atime_new_attestation : ℤ
  pub atime_handle_unconfirmed : ℤ
  pub attest_delay : ℤ
  pub confirm_time : ℤ
  pub is_fee_bumped : Bool
  pub sigs : List (List Sig)

-- What `GetRawTransactionVerbose` gives: the hash, and for each input the characters of the
-- disassembled signature script.
pub record TxRawResult : Type 0 where
  pub hash : String
  pub vin_asm : List (List ℕ)

-- The answers of one step. The client's searches, addresses and signatures, the server and the
-- bitcoin node answer with a value or an error; `none` is a panic or a nil pointer. Answers may
-- differ from call to call where a step makes the same call again: the ℕ counts the calls.
-- `since` is the time elapsed since a time, `now` the present.
pub record Replies (Hash : Type 0) : Type 0 where
  pub unconfirmed_tx : Option (Result (Option Hash))
  pub last_unspent : Option (Result (Option ListUnspentResult))
  pub topup_unspent : Result (Option ListUnspentResult)
  pub next_key : Hash → Result (Option String)
  pub next_addr : ℕ → Option String → Hash → Result String
  pub import_addr : ℕ → String → Bool → Option String
  pub create_raw_transaction : List (String × ℕ) → String → ℤ → Result (MsgTx Hash)
  pub pre_images : Hash → MsgTx Hash → Result (List (MsgTx Hash))
  pub sign : MsgTx Hash → List (List Sig) → Hash → Option (MsgTx Hash × Result (MsgTx Hash))
  pub send : MsgTx Hash → Result Hash
  pub attestation_commitment : Hash → Bool → Result (Commitment Hash)
  pub latest_hash : Bool → Result Hash
  pub client_commitment : Option (Result (Commitment Hash))
  pub update_latest : Attestation Hash → Option String
  pub get_sigs : String → List ℕ → String → Option (List (List Sig))
  pub raw_transaction : Hash → Option (MsgTx Hash)
  pub raw_verbose : Hash → Option TxRawResult
  pub wallet_transaction : Hash → Result GetTransactionResult
  pub mempool_entry : String → Result GetMempoolEntryResult
  pub fee_response : FeeResponse
  pub since : ℕ → ℤ → ℤ
  pub now : ℤ

-- The calls that change something outside: the database, the signers, the wallet, the network.
pub data Effect (Hash : Type 0) : Type 0 where
  update_latest_attestation : Attestation Hash → Effect Hash
  send_confirmed_hash : List ℕ → Effect Hash
  import_attestation_addr : String → Bool → Effect Hash
  ask_sigs : String → List ℕ → String → Effect Hash
  re_subscribe : Effect Hash
  send_tx_pre_images : List (List ℕ) → Effect Hash
  send_attestation : MsgTx Hash → Effect Hash

abbrev pub Outcome : Type 0 → Type 0
Outcome Hash = Option (AttestService Hash × List (Effect Hash))

module _ {Hash : Type 0} where
  unfoldable pub set_failure : String → AttestService Hash → AttestService Hash
  set_failure e s = record s { error_state = some e; state = astate_error }

  -- `x, e := call; if s.setFailure(e) { return }`: what follows is `next`, and the effects so far
  -- are `fx`.
  unfoldable pub attempt :
      {A : Type 0}
      → Result A
      → AttestService Hash
      → List (Effect Hash)
      → (A → Outcome Hash)
      → Outcome Hash
  attempt (ok a) s fx next = next a
  attempt (err e) s fx next = some (set_failure e s, fx)

  -- The same for a call that gives an error only.
  unfoldable pub check :
      Option String → AttestService Hash → List (Effect Hash) → Outcome Hash → Outcome Hash
  check none s fx next = next
  check (some e) s fx next = some (set_failure e s, fx)
