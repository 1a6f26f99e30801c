-- ===== src/Client/Found.antt =====
-- attestation/attestclient.go: which transactions verifyTxOnSubchain accepts.
use mainstay.Prelude.{
  ℕ, zero, suc, ◌≡◌, refl, ◌↔◌, Bool, true, false, Option, none, some, List, [], ◌∷◌, String,
  str_eq, if◌then◌else◌, arith,
}
use mainstay.Wire.{Wire, MsgTx, TxIn}
use mainstay.Client.Chain.{verify_tx_on_subchain}

-- The first inputs of the transactions that the node knows lead from the id to the base.
pub data OnSubchain {Hash : Type 0} ⦃w : Wire Hash⦄ (raw : Hash → Option (MsgTx Hash))
    (txid0 : String) : Hash → Type 0 where
  base : (txid : Hash) → str_eq (w.hash_string txid) txid0 ≡ true → OnSubchain raw txid0 txid
  back :
      (txid : Hash) (tx : MsgTx Hash) (i : TxIn Hash) (is : List (TxIn Hash))
      → str_eq (w.hash_string txid) txid0 ≡ false
      → raw txid ≡ some tx
      → tx.tx_in ≡ i ∷ is
      → OnSubchain raw txid0 i.previous_hash
      → OnSubchain raw txid0 txid

module _ {Hash : Type 0} ⦃w : Wire Hash⦄ (raw : Hash → Option (MsgTx Hash)) (txid0 : String) where
  accepts :
      (txid : Hash)
      → OnSubchain raw txid0 txid
      → (fuel : ℕ) × (verify_tx_on_subchain raw txid0 fuel txid ≡ some true)
  unfolding verify_tx_on_subchain
  accepts txid (base _ same) = (1, rw (same, verify_tx_on_subchain))
  accepts txid (back _ tx i is differ known first rest) =
      let (fuel, found) = accepts i.previous_hash rest in
      (suc fuel, rw (differ, known, first, verify_tx_on_subchain) found)

  abbrev Sound : ℕ → Type 0
  Sound fuel =
      (txid : Hash)
      → verify_tx_on_subchain raw txid0 fuel txid ≡ some true
      → OnSubchain raw txid0 txid

  inputs :
      (fuel : ℕ) (txid : Hash) (tx : MsgTx Hash) (ins : List (TxIn Hash))
      → Sound fuel
      → str_eq (w.hash_string txid) txid0 ≡ false
      → raw txid ≡ some tx
      → tx.tx_in ≡ ins
      → elim ins as (λ _. Option Bool) [
        | [] ↦ none
        | i ∷ is ↦ verify_tx_on_subchain raw txid0 fuel i.previous_hash
      ]
        ≡ some true
      → OnSubchain raw txid0 txid
  inputs fuel txid tx [] ih differ known first g = absurd (ground arith)
  inputs fuel txid tx (i ∷ is) ih differ known first g =
      back txid tx i is differ known first (ih i.previous_hash g)

  known_or_not :
      (fuel : ℕ) (txid : Hash) (o : Option (MsgTx Hash))
      → Sound fuel
      → str_eq (w.hash_string txid) txid0 ≡ false
      → raw txid ≡ o
      → elim o as (λ _. Option Bool) [
        | none ↦ some false
        | some tx ↦ elim tx.tx_in as (λ _. Option Bool) [
          | [] ↦ none
          | i ∷ is ↦ verify_tx_on_subchain raw txid0 fuel i.previous_hash
        ]
      ]
        ≡ some true
      → OnSubchain raw txid0 txid
  known_or_not fuel txid none ih differ e g = absurd (ground arith)
  known_or_not fuel txid (some tx) ih differ e g = inputs fuel txid tx tx.tx_in ih differ e refl g

  at_id :
      (fuel : ℕ) (txid : Hash) (b : Bool)
      → Sound fuel
      → str_eq (w.hash_string txid) txid0 ≡ b
      → (if b then some true else elim (raw txid) as (λ _. Option Bool) [
        | none ↦ some false
        | some tx ↦ elim tx.tx_in as (λ _. Option Bool) [
          | [] ↦ none
          | i ∷ is ↦ verify_tx_on_subchain raw txid0 fuel i.previous_hash
        ]
      ])
        ≡ some true
      → OnSubchain raw txid0 txid
  at_id fuel txid true ih e g = base txid e
  at_id fuel txid false ih e g = known_or_not fuel txid (raw txid) ih e refl g

  sound : (fuel : ℕ) → Sound fuel
  unfolding verify_tx_on_subchain
  sound zero txid h = absurd (ground arith)
  sound (suc fuel) txid h = at_id fuel txid _ (sound fuel) refl h

  -- verifyTxOnSubchain accepts an id, with enough fuel, exactly if the first inputs of the
  -- transactions that the node knows lead from it to the base transaction.
  pub verify_tx_on_subchain-OnSubchain :
      (txid : Hash)
      → ((fuel : ℕ) × (verify_tx_on_subchain raw txid0 fuel txid ≡ some true))
        ↔ OnSubchain raw txid0 txid
  verify_tx_on_subchain-OnSubchain txid = (λ (fuel, h). sound fuel txid h, accepts txid)
