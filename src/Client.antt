-- ===== src/Client.antt =====
-- attestation/attestclient.go: the client that makes, signs and finds attestation transactions.
-- What it keeps is a record; an RPC call of the bitcoin client is an argument that gives its
-- answer, `none` is a panic (an index out of range, or nil dereferenced).
pub mod Tx
pub mod Chain
pub mod Bump
pub mod Found
pub mod Keys
pub mod Sign
pub mod Signed
pub mod New
pub mod NoTopup
mod SignTests
mod Tests
use mainstay.Prelude.{ℕ, List, String, Bool}
use mainstay.Fees.{AttestFees}

-- Scripts are the characters of the configured strings; a key is its string. `wallet_priv` says
-- whether the client is a signer, with a private key of its own.
pub record AttestClient : Type 0 where
  pub fees : AttestFees
  pub txid0 : String
  pub script0 : List ℕ
  pub num_of_sigs : ℕ
  pub addr_topup : String
  pub script_topup : List ℕ
  pub wallet_priv : Bool
