-- ===== src/Staychain/Tests.antt =====
-- Runs of the fetcher and its channel, and the theorems of Staychain at a small chain.
use mainstay.Prelude.{ℕ, ◌-◌, ◌≡◌, refl, arith, some, List, [], ◌∷◌, if◌then◌else◌, ◌==◌}
use mainstay.Wire.{MsgTx, ok}
use mainstay.Wire.Toy.{toy_wire}
use mainstay.Staychain.{
  Tx, Node, ChainFetcher, Chain, fetched, sent, taken, Reach, here, there, new_chain_fetcher,
  new_chain, fetch,
}
use mainstay.Staychain.Fetch.{Outcome, fetch-Outcome}
use mainstay.Staychain.Order.{asked, IsOrdered, Reach-IsOrdered}

abbrev base : Tx
base = record { txid = "one"; block_hash = "two"; vout = [] }

abbrev next : Tx
next = record { txid = "two"; block_hash = "many"; vout = ("address" ∷ []) ∷ [] }

-- It spends the first output of the transaction with this hash.
abbrev spending : ℕ → MsgTx ℕ
spending hash = record {
  tx_in =
      record { previous_hash = hash; previous_index = 0; signature_script = []; sequence = 0 } ∷ [];
  tx_out = [];
}

-- The block at height 4 spends the base transaction, the one at height 3 does not.
abbrev block : ℕ → List (MsgTx ℕ)
block height = if height == 4 then spending 0 ∷ spending 1 ∷ [] else spending 2 ∷ []

abbrev node : Node ℕ
node = record {
  get_block_count = ok 5;
  get_block_hash = λ height. ok height;
  get_block = λ hash. ok (block hash);
  get_raw_transaction_verbose = λ hash. ok next;
  get_block_header_height = λ hash. ok 2;
}

abbrev fetcher : ChainFetcher
fetcher = record { txid0 = "one"; latest_tx = base; latest_height = 2 }

abbrev moved : ChainFetcher
moved = record { txid0 = "one"; latest_tx = next; latest_height = 4 }

fetcher-new : new_chain_fetcher toy_wire node base ≡ some fetcher
unfolding new_chain_fetcher
fetcher-new = refl

fetch-next : fetch toy_wire node fetcher ≡ some (moved, next ∷ [])
unfolding fetch
fetch-next = refl

-- Above the block of `next` there is no transaction that spends it but at height 5.
fetch-again : fetch toy_wire node moved ≡ some (record moved { latest_height = 5 }, next ∷ [])
unfolding fetch
fetch-again = refl

fetch-Outcome_example :
    (count : ℕ) × (node.get_block_count ≡ ok count)
    × Outcome toy_wire node fetcher 2 (count - 2) moved (next ∷ [])
fetch-Outcome_example = fetch-Outcome toy_wire node fetcher moved (next ∷ []) fetch-next

-- The base transaction is sent, the next one fetched, and the first taken by the client.
abbrev after : Chain
after = record { fetcher = moved; pending = next ∷ []; updates = []; received = base ∷ [] }

Reach-after : Reach toy_wire (new_chain fetcher) after
unfolding new_chain
Reach-after =
    there
      (there (there here (sent (new_chain fetcher) base [] refl (omega arith))) (
        fetched (record (new_chain fetcher) { pending = []; updates = base ∷ [] }) node moved
          (next ∷ []) fetch-next))
      (taken (record { fetcher = moved; pending = next ∷ []; updates = base ∷ []; received = [] })
        base [] refl)

Reach-IsOrdered_example : IsOrdered toy_wire (asked toy_wire Reach-after) base after
Reach-IsOrdered_example = Reach-IsOrdered toy_wire fetcher after Reach-after
