-- ===== src/Staychain.antt =====
-- staychain/chain.go and staychain/chainfetcher.go: following the transactions of the staychain.
-- `none` is a panic, or the end of the process by `log.Fatal`; a height is not negative.
pub mod Fetch
pub mod Order
mod Tests
use mainstay.Prelude.{
  ℕ, zero, suc, ◌+◌, ◌-◌, ◌<◌, ◌≡◌, Option, none, some, List, [], ◌∷◌, ◌++◌, String, str_eq,
  if◌then◌else◌, length,
}
use mainstay.Prelude.Panic.{◌>>=◌, maybe}
use mainstay.Wire.{Wire, MsgTx, TxIn, Result, ok, err}

-- The fields of `btcjson.TxRawResult` that the program reads; an output stands by its addresses.
pub record Tx : Type 0 where
  pub txid : String
  pub block_hash : String
  pub vout : List (List String)

-- What the bitcoin node answers at one time: GetBlockCount, GetBlockHash with GetBlock behind it,
-- and GetRawTransactionVerbose.
pub record Node (Hash : Type 0) : Type 0 where
  pub get_block_count : Result ℕ
  pub get_block_hash : ℕ → Result Hash
  pub get_block : Hash → Result (List (MsgTx Hash))
  pub get_raw_transaction_verbose : Hash → Result Tx
  -- The height in the answer of GetBlockHeaderVerbose.
  pub get_block_header_height : Hash → Result ℕ

pub record ChainFetcher : Type 0 where
  pub txid0 : String
  pub latest_tx : Tx
  pub latest_height : ℕ

-- `log.Fatal` of an error.
abbrev pub or_fatal : {A : Type 0} → Result A → Option A
or_fatal (ok a) = some a
or_fatal (err e) = none

-- The goroutine of `Chain.fetch`, its channel `updates`, and what a client has received.
pub record Chain : Type 0 where
  pub fetcher : ChainFetcher
  pub pending : List Tx
  pub updates : List Tx
  pub received : List Tx

abbrev pub updates_buffer_size : ℕ
updates_buffer_size = 10

unfoldable pub new_chain : ChainFetcher → Chain
new_chain fetcher = record {
  fetcher = fetcher;
  pending = fetcher.latest_tx ∷ [];
  updates = [];
  received = [];
}

module _ {Hash : Type 0} (w : Wire Hash) where
  -- An error of NewHashFromStr or of the node leaves nil, which is dereferenced.
  unfoldable pub new_chain_fetcher : Node Hash → Tx → Option ChainFetcher
  new_chain_fetcher node tx = w.hash_of_string tx.block_hash >>= λ blockhash.
      or_fatal (node.get_block_header_height blockhash) >>= λ height.
      some (record { txid0 = tx.txid; latest_tx = tx; latest_height = height })

  -- `tx.TxIn[0].PreviousOutPoint.Hash.String()`
  abbrev pub first_spent : MsgTx Hash → Option String
  first_spent tx = spent tx.tx_in
    where
      spent : List (TxIn Hash) → Option String
      spent [] = none
      spent (i ∷ _) = some (w.hash_string i.previous_hash)

  -- The loop over the transactions of a block; `some none` is the answer that none is found.
  unfoldable pub spender_in : Node Hash → String → List (MsgTx Hash) → Option (Option Tx)
  spender_in node txid [] = some none
  spender_in node txid (tx ∷ txs) =
      let rest = spender_in node txid txs in
      first_spent tx >>= λ spent.
      if str_eq spent txid
      then (or_fatal (node.get_raw_transaction_verbose (w.tx_hash tx)) >>= λ raw. some (some raw))
      else rest

  -- The transactions of the block at a height.
  unfoldable pub block_at : Node Hash → ℕ → Option (List (MsgTx Hash))
  block_at node height =
      or_fatal (node.get_block_hash height) >>= λ blockhash. or_fatal (node.get_block blockhash)

  unfoldable pub tx_in_block : Node Hash → ChainFetcher → ℕ → Option (Option Tx)
  unfolding spender_in block_at
  tx_in_block node f height = block_at node height >>= spender_in node f.latest_tx.txid

  -- The loop while the height is below the block count, which it is `rounds` times.
  unfoldable pub fetch_loop : Node Hash → ℕ → ℕ → ChainFetcher → Option (ChainFetcher × List Tx)
  unfolding tx_in_block
  fetch_loop node zero height f = some (record f { latest_height = height }, [])
  fetch_loop node (suc rounds) height f =
      let rest = fetch_loop node rounds (height + 1) f in
      tx_in_block node f (height + 1) >>= λ found.
      maybe found rest λ tx. some (record f { latest_height = height + 1; latest_tx = tx }, tx ∷ [])

  unfoldable pub fetch : Node Hash → ChainFetcher → Option (ChainFetcher × List Tx)
  unfolding fetch_loop
  fetch node f = or_fatal node.get_block_count >>= λ blockcount.
      fetch_loop node (blockcount - f.latest_height) f.latest_height f

  -- A case of the `select`, or a client that receives. A fetch may come at any time, with what
  -- the node answers then; the delay before it is left out. The channel `closing` is nil, so that
  -- its case is never taken.
  pub data Step : Chain → Chain → Type 0 where
    fetched :
        (c : Chain) (node : Node Hash) (f : ChainFetcher) (txs : List Tx)
        → fetch node c.fetcher ≡ some (f, txs)
        → Step c (record c { fetcher = f; pending = c.pending ++ txs })
    sent :
        (c : Chain) (first : Tx) (rest : List Tx)
        → c.pending ≡ first ∷ rest
        → length c.updates < updates_buffer_size
        → Step c (record c { pending = rest; updates = c.updates ++ first ∷ [] })
    taken :
        (c : Chain) (first : Tx) (rest : List Tx)
        → c.updates ≡ first ∷ rest
        → Step c (record c { updates = rest; received = c.received ++ first ∷ [] })

  pub data Reach (start : Chain) : Chain → Type 0 where
    here : Reach start start
    there : {c d : Chain} → Reach start c → Step c d → Reach start d
