-- ===== src/Client/Chain.antt =====
-- attestation/attestclient.go: finding transactions of the subchain. `raw` is the RPC call
-- GetRawTransaction (`none` for an error); verifyTxOnSubchain calls itself on the previous
-- transaction, here on fuel.
use mainstay.Prelude.{
  ℕ, zero, suc, Bool, true, false, not, ◌&&◌, Option, none, some, List, [], ◌∷◌, String,
  if◌then◌else◌, str_eq,
}
use mainstay.Prelude.Panic.{◌>>=◌}
use mainstay.Wire.{Wire, MsgTx, ListUnspentResult, Result, ok, err}

module _ {Hash : Type 0} ⦃w : Wire Hash⦄ (raw : Hash → Option (MsgTx Hash)) (txid0 : String) where
  -- `none` is a panic, on a transaction without inputs, or too little fuel.
  unfoldable pub verify_tx_on_subchain : ℕ → Hash → Option Bool
  verify_tx_on_subchain zero txid = none
  verify_tx_on_subchain (suc fuel) txid =
      if str_eq (w.hash_string txid) txid0 then some true else elim (raw txid) [
        | none ↦ some false
        | some tx ↦ elim tx.tx_in [
          | [] ↦ none
          | i ∷ is ↦ verify_tx_on_subchain fuel (i.previous_hash)
        ]
      ]

  -- The loop of findLastUnspent. An id that is no hash is a nil pointer, whose use panics.
  unfoldable pub last_unspent_in : ℕ → List ListUnspentResult → Option (Option ListUnspentResult)
  unfolding verify_tx_on_subchain
  last_unspent_in fuel [] = some none
  last_unspent_in fuel (vout ∷ rest) = w.hash_of_string (vout.tx_id) >>= λ txhash.
      verify_tx_on_subchain fuel txhash >>= λ found.
      let later = last_unspent_in fuel rest in if found then some (some vout) else later

  unfoldable pub find_last_unspent :
      ℕ → Result (List ListUnspentResult) → Option (Result (Option ListUnspentResult))
  unfolding last_unspent_in
  find_last_unspent fuel (err e) = some (err e)
  find_last_unspent fuel (ok unspent) = last_unspent_in fuel unspent >>= λ found. some (ok found)

  -- The loop of getUnconfirmedTx.
  unfoldable pub unconfirmed_in : ℕ → List Hash → Option (Option Hash)
  unfolding verify_tx_on_subchain
  unconfirmed_in fuel [] = some none
  unconfirmed_in fuel (hash ∷ rest) = verify_tx_on_subchain fuel hash >>= λ found.
      let later = unconfirmed_in fuel rest in if found then some (some hash) else later

  unfoldable pub get_unconfirmed_tx : ℕ → Result (List Hash) → Option (Result (Option Hash))
  unfolding unconfirmed_in
  get_unconfirmed_tx fuel (err e) = some (err e)
  get_unconfirmed_tx fuel (ok mempool) = unconfirmed_in fuel mempool >>= λ found. some (ok found)

-- The loop of findTopupUnspent.
unfoldable pub topup_in : String → String → List ListUnspentResult → Option ListUnspentResult
topup_in addr_topup txid0 [] = none
topup_in addr_topup txid0 (u ∷ rest) =
    if str_eq (u.address) addr_topup && not (str_eq (u.tx_id) txid0)
    then some u
    else topup_in addr_topup txid0 rest

unfoldable pub find_topup_unspent :
    String → String → Result (List ListUnspentResult) → Result (Option ListUnspentResult)
unfolding topup_in
find_topup_unspent addr_topup txid0 (err e) = err e
find_topup_unspent addr_topup txid0 (ok unspent) = ok (topup_in addr_topup txid0 unspent)
