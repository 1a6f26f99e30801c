-- ===== src/ConfirmationTool/Confirmed.antt =====
-- What the tool prints: a part of the staychain without gaps, each transaction accepted.
use mathlib.Core.Option.{some-injective}
use mainstay.Text.{bytes_of, split_commas}
use mainstay.Verifier.New.{new_chain_verifier}
use mainstay.Prelude.{
  ◌≡◌, refl, ap, sym, ◌∙◌, Bool, true, false, Option, some, none, List, [], ◌∷◌, map,
}
use mainstay.Prelude.Panic.{>>=-some}
use mainstay.Hashing.{Hashing}
use mainstay.Wire.{Wire, Result, ok, err}
use mainstay.Staychain.{
  ChainFetcher, Tx, Node, Chain, Reach, new_chain, new_chain_fetcher, or_fatal,
}
use mainstay.Staychain.Order.{asked, IsOrdered, start-IsOrdered}
use mainstay.Verifier.{Outside, ChainVerifier, ChainVerifierInfo, verify}
use mainstay.Verifier.Accepted.{IsAccepted, verify-IsAccepted}
use mainstay.ConfirmationTool.{Flags, get_raw_tx_from_hash, start, next_printed, verify_updates}

module _ {Hash Key Pub Address : Type 0} ⦃c : Hashing Hash⦄ (w : Wire Hash)
    (v : ChainVerifier Key) where
  -- What is printed are the first of these transactions, each accepted; all of them if the loop
  -- goes on.
  abbrev pub AreConfirmed :
      List (Outside Hash Key Pub Address × Tx) → List (Tx × ChainVerifierInfo Hash) × Bool → Type 0
  AreConfirmed [] ([], going) = going ≡ true
  AreConfirmed [] (p ∷ printed, going) = ⊥
  AreConfirmed (update ∷ updates) ([], going) = going ≡ false
  AreConfirmed ((o, tx) ∷ updates) ((tx', info) ∷ printed, going) =
      (tx' ≡ tx) × IsAccepted w o v tx info × AreConfirmed updates (printed, going)

  next-AreConfirmed :
      (o : Outside Hash Key Pub Address) (tx : Tx)
      (updates : List (Outside Hash Key Pub Address × Tx))
      (rest : List (Tx × ChainVerifierInfo Hash) × Bool)
      → AreConfirmed updates rest
      → (r : Option (Result (ChainVerifierInfo Hash))) → verify w o v tx ≡ r
      → AreConfirmed ((o, tx) ∷ updates) (next_printed tx r rest)
  next-AreConfirmed o tx updates rest h none e = refl
  next-AreConfirmed o tx updates rest h (some (err x)) e = refl
  next-AreConfirmed o tx updates rest h (some (ok info)) e =
      (refl, verify-IsAccepted w o v tx info e, h)

  all-AreConfirmed :
      (updates : List (Outside Hash Key Pub Address × Tx))
      → AreConfirmed updates (verify_updates w v updates)
  unfolding verify_updates
  all-AreConfirmed [] = refl
  all-AreConfirmed ((o, tx) ∷ updates) =
      next-AreConfirmed o tx updates (verify_updates w v updates) (all-AreConfirmed updates)
        (verify w o v tx) refl

module _ {Hash : Type 0} (w : Wire Hash) where
  fetcher_tx :
      (node : Node Hash) (tx : Tx) (fetcher : ChainFetcher)
      → new_chain_fetcher w node tx ≡ some fetcher
      → fetcher.latest_tx ≡ tx
  unfolding new_chain_fetcher
  fetcher_tx node tx fetcher made =
      let (hash, _, made1) = >>=-some (w.hash_of_string tx.block_hash) _ fetcher made in
      let (height, _, made2) =
        >>=-some (or_fatal (node.get_block_header_height hash)) _ fetcher made1 in
      ap (λ (x : ChainFetcher). x.latest_tx) (sym (some-injective _ _ made2))

  start-chain :
      {Key Pub Address : Type 0} (node : Node Hash) (o : Outside Hash Key Pub Address) (f : Flags)
      (chain : Chain) (v : ChainVerifier Key)
      → start w node o f ≡ some (chain, v)
      → (fetcher : ChainFetcher) × (get_raw_tx_from_hash w node f.tx ≡ some fetcher.latest_tx)
        × (chain ≡ new_chain fetcher)
  unfolding start
  start-chain {Key = Key} node o f chain v started =
      let (tx, got, started1) = >>=-some (get_raw_tx_from_hash w node f.tx) _ (chain, v) started in
      let (fetcher, made, started2) =
        >>=-some (new_chain_fetcher w node tx) _ (chain, v) started1 in
      let (verifier, _, started3) =
        >>=-some
          (new_chain_verifier o f.position (bytes_of f.script)
            (map bytes_of (split_commas f.chaincodes)))
          _ (chain, v) started2 in
      (
        fetcher,
        got ∙ ap some (sym (fetcher_tx node tx fetcher made)),
        ap (λ (p : Chain × ChainVerifier Key). p.0) (sym (some-injective _ _ started3)),
      )

  -- Once the tool has started, whatever the nodes that it asks answer, the transactions that it
  -- gets from the channel and those that wait make up a chain, which begins with the transaction
  -- that is asked for and in which each spends the one before it, by a block of a node that a
  -- fetch of this run asked; whatever the API and the other parts outside answer for each, what
  -- the tool prints are the first of those that it gets in this order, all as long as it goes on,
  -- each with the info of a transaction that the verifier accepts.
  pub verify_updates-AreConfirmed :
      {Key Pub Address : Type 0} ⦃hashing : Hashing Hash⦄ (node : Node Hash)
      (o : Outside Hash Key Pub Address) (f : Flags) (start_chain chain : Chain)
      (v : ChainVerifier Key) (answers : Tx → Outside Hash Key Pub Address)
      → start w node o f ≡ some (start_chain, v)
      → (reach : Reach w start_chain chain)
      → (first : Tx) × (get_raw_tx_from_hash w node f.tx ≡ some first)
        × IsOrdered w (asked w reach) first chain
        × AreConfirmed w v
            (map (λ tx. (answers tx, tx)) chain.received)
            (verify_updates w v (map (λ tx. (answers tx, tx)) chain.received))
  verify_updates-AreConfirmed node o f start_chain chain v answers started reach =
      let (fetcher, got, e) = start-chain node o f start_chain v started in
      (
        fetcher.latest_tx,
        got,
        start-IsOrdered w fetcher chain reach e,
        all-AreConfirmed w v (map (λ tx. (answers tx, tx)) chain.received),
      )
