-- ===== src/ConfirmationTool.antt =====
-- cmd/confirmationtool/confirmationtool.go: the transactions that the staychain gives, verified one
-- after the other. `none` is a panic or the end of the process.
pub mod Confirmed
mod Tests
use Prim.Native.String.{◌++◌ as ◌⧺◌}
use mainstay.Prelude.{
  ℕ, zero, Bool, true, false, ◌&&◌, ◌||◌, Option, none, some, List, [], ◌∷◌, map, String, str_eq,
  ◌==◌, if◌then◌else◌,
}
use mainstay.Prelude.Int.{ℤ, pos, negsuc}
use mainstay.Prelude.Panic.{◌>>=◌, maybe}
use mainstay.Hashing.{Hashing}
use mainstay.Text.{bytes_of, split_commas}
use mainstay.Wire.{Wire, Result, ok, err}
use mainstay.Config.{Conf}
use mainstay.Config.Rpc.{get_conf_file}
use mainstay.Config.Load.{Config, SidechainClient, new_config, new_client_from_config}
use mainstay.Config.Load as Load
use mainstay.Staychain.{Tx, Node, Chain, or_fatal, new_chain_fetcher, new_chain}
use mainstay.Verifier.{Outside, ChainVerifier, ChainVerifierInfo, verify}
use mainstay.Verifier.New.{new_chain_verifier}

pub record Flags : Type 0 where
  pub show_details : Bool
  pub tx : String
  pub script : String
  pub chaincodes : String
  pub position : ℤ

-- A flag is missing.
abbrev pub is_missing : Flags → Bool
is_missing f =
    str_eq f.tx "" || str_eq f.script "" || no_position f.position || str_eq f.chaincodes ""
  where
    no_position : ℤ → Bool
    no_position (pos n) = false
    no_position (negsuc n) = n == 0

-- `init`: the configuration and the client of the sidechain, from the file of the tool.
unfoldable pub init :
    {Client : Type 0}
    → Load.Outside Client
    → Flags
    → Option (Config Client × SidechainClient Client)
unfolding new_config new_client_from_config
init outside f =
    if is_missing f
    then none
    else (or_fatal (
          get_conf_file outside.read_file
            (outside.getenv "GOPATH" ⧺ "/src/mainstay/cmd/confirmationtool/conf.json"))
        >>= λ conf_file. or_fatal (new_config outside (conf_file ∷ [])) >>= λ main_config.
            new_client_from_config outside "clientchain" false (conf_file ∷ []) >>= λ client.
            some (main_config, client))

module _ {Hash : Type 0} (w : Wire Hash) where
  unfoldable pub get_raw_tx_from_hash : Node Hash → String → Option Tx
  get_raw_tx_from_hash node hashstr =
      w.hash_of_string hashstr >>= λ txhash. or_fatal (node.get_raw_transaction_verbose txhash)

  -- The part of `main` before its loop: the staychain and the verifier.
  unfoldable pub start :
      {Key Pub Address : Type 0}
      → Node Hash
      → Outside Hash Key Pub Address
      → Flags
      → Option (Chain × ChainVerifier Key)
  unfolding get_raw_tx_from_hash
  start node o f = get_raw_tx_from_hash node f.tx >>= λ txraw.
      new_chain_fetcher w node txraw >>= λ fetcher.
      new_chain_verifier o f.position (bytes_of f.script) (map bytes_of (split_commas f.chaincodes))
      >>= λ verifier. some (new_chain fetcher, verifier)

-- What is printed of one update and of those behind it, and whether the loop goes on.
abbrev pub next_printed :
    {Hash : Type 0}
    → Tx
    → Option (Result (ChainVerifierInfo Hash))
    → List (Tx × ChainVerifierInfo Hash) × Bool
    → List (Tx × ChainVerifierInfo Hash) × Bool
next_printed transaction none rest = ([], false)
next_printed transaction (some (err e)) rest = ([], false)
next_printed transaction (some (ok info)) rest = ((transaction, info) ∷ rest.0, rest.1)

module _ {Hash Key Pub Address : Type 0} ⦃c : Hashing Hash⦄ (w : Wire Hash)
    (v : ChainVerifier Key) where
  -- The loop over the updates; the answers of the outside come with each transaction.
  unfoldable pub verify_updates :
      List (Outside Hash Key Pub Address × Tx) → List (Tx × ChainVerifierInfo Hash) × Bool
  verify_updates [] = ([], true)
  verify_updates ((o, transaction) ∷ updates) =
      next_printed transaction (verify w o v transaction) (verify_updates updates)

-- The lines of an attestation: all of it or its blockhash, and the info unless it is empty.
unfoldable pub print_attestation :
    {Hash : Type 0}
    → ⦃c : Hashing Hash⦄ → Flags
    → Tx
    → ChainVerifierInfo Hash
    → (Option Tx × Option String) × Option (ChainVerifierInfo Hash)
print_attestation ⦃c⦄ f tx info = (
  if f.show_details then (some tx, none) else (none, some tx.block_hash),
  if c.beq info.hash c.zero_hash && is_zero info.height then none else some info,
)
  where
    is_zero : ℤ → Bool
    is_zero (pos n) = n == 0
    is_zero (negsuc n) = false
