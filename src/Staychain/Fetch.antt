-- ===== src/Staychain/Fetch.antt =====
-- What a fetch finds: the first transaction behind the last one that spends it.
use mathlib.Core.Path.{subst}
use mathlib.Core.Option.{some-injective, none-ne-some}
use text.Mathlib.TextEquality.{eq_iff}
use mainstay.Prelude.{
  ℕ, zero, suc, ◌+◌, ◌-◌, ◌<◌, ◌≡◌, ◌≢◌, ◌⊎◌, sym, ap, ◌∙◌, arith, false, Option, none, some, List,
  [], ◌∷◌, String, str_eq, Bool-cases, Option-cases, inl, inr,
}
use mainstay.Prelude.Panic.{>>=-some}
use mainstay.Wire.{Wire, MsgTx, Result, ok, err}
use mainstay.Staychain.{
  Tx, Node, ChainFetcher, or_fatal, first_spent, spender_in, block_at, tx_in_block, fetch_loop,
  fetch,
}

or_fatal-some : {A : Type 0} (r : Result A) (a : A) → or_fatal r ≡ some a → r ≡ ok a
or_fatal-some (ok b) a h = ap ok (some-injective b a h)
or_fatal-some (err e) a h = absurd (none-ne-some a h)

str_eq-differs : (s t : String) → str_eq s t ≡ false → s ≢ t
str_eq-differs s t h = ground (arith, eq_iff s t)

-- A value that is given, if one is.
abbrev Gives : {A : Type 0} → (A → Type 0) → Option A → Type 0
Gives P none = Unit {0}
Gives P (some a) = P a

module _ {Hash : Type 0} (w : Wire Hash) (node : Node Hash) where
  -- No transaction spends an output of `txid` by its first input.
  abbrev NoneSpends : String → List (MsgTx Hash) → Type 0
  NoneSpends txid [] = Unit {0}
  NoneSpends txid (t ∷ ts) = (first_spent w t ≢ some txid) × NoneSpends txid ts

  -- The first transaction that does is the one that the node calls `raw`.
  abbrev pub FirstSpends : String → Tx → List (MsgTx Hash) → Type 0
  FirstSpends txid raw [] = ⊥
  FirstSpends txid raw (t ∷ ts) =
      ((first_spent w t ≡ some txid) × (node.get_raw_transaction_verbose (w.tx_hash t) ≡ ok raw))
      ⊎ ((first_spent w t ≢ some txid) × FirstSpends txid raw ts)

  abbrev Spending : String → List (MsgTx Hash) → Option Tx → Type 0
  Spending txid txs none = NoneSpends txid txs
  Spending txid txs (some raw) = FirstSpends txid raw txs

  spender_in-Spending :
      (txid : String) (txs : List (MsgTx Hash)) (found : Option Tx)
      → spender_in w node txid txs ≡ some found
      → Spending txid txs found
  unfolding spender_in
  spender_in-Spending txid [] found h = subst (Spending txid []) (some-injective none found h) tt
  spender_in-Spending txid (t ∷ ts) found h =
      let (spent, e, h') = >>=-some (first_spent w t) _ found h in
      elim (Bool-cases (str_eq spent txid)) [
        | inl same ↦
            let (raw, got, done) =
              >>=-some (or_fatal (node.get_raw_transaction_verbose (w.tx_hash t)))
                (λ r. some (some r)) found (rw same at h') in
            subst (Spending txid (t ∷ ts)) (some-injective (some raw) found done)
              (inl (e ∙ ap some ((eq_iff spent txid).0 same), or_fatal-some _ raw got))
        | inr other ↦
            further e (str_eq-differs spent txid other) found
              (spender_in-Spending txid ts found (rw other at h'))
      ]
    where
      further :
          {spent : String}
          → first_spent w t ≡ some spent
          → spent ≢ txid
          → (o : Option Tx) → Spending txid ts o
          → Spending txid (t ∷ ts) o
      further e differs none rest = ((λ q. differs (some-injective _ _ (sym e ∙ q))), rest)
      further e differs (some raw) rest =
          inr ((λ q. differs (some-injective _ _ (sym e ∙ q))), rest)

  -- The blocks above a height, as many as are counted: none has a spender.
  abbrev Clear : String → ℕ → ℕ → Type 0
  Clear txid lo zero = Unit {0}
  Clear txid lo (suc n) =
      ((txs : List (MsgTx Hash)) × (block_at w node (lo + 1) ≡ some txs) × NoneSpends txid txs)
      × Clear txid (lo + 1) n

  tx_in_block-Spending :
      (f : ChainFetcher) (h : ℕ) (found : Option Tx)
      → tx_in_block w node f h ≡ some found
      → (txs : List (MsgTx Hash)) × (block_at w node h ≡ some txs)
        × Spending f.latest_tx.txid txs found
  unfolding tx_in_block
  tx_in_block-Spending f h found e =
      let (txs, at, spent) = >>=-some (block_at w node h) _ found e in
      (txs, at, spender_in-Spending f.latest_tx.txid txs found spent)

  -- What a fetch from a height leaves, if `rounds` blocks stand above it.
  pub data Outcome (f : ChainFetcher) (lo rounds : ℕ) : ChainFetcher → List Tx → Type 0 where
    none_found :
        (h : ℕ)
        → h ≡ lo + rounds
        → Clear f.latest_tx.txid lo rounds
        → Outcome f lo rounds (record f { latest_height = h }) []
    next_found :
        (n h : ℕ) (tx : Tx) (txs : List (MsgTx Hash))
        → h ≡ lo + n + 1
        → n < rounds
        → Clear f.latest_tx.txid lo n
        → block_at w node h ≡ some txs
        → FirstSpends f.latest_tx.txid tx txs
        → Outcome f lo rounds (record f { latest_height = h; latest_tx = tx }) (tx ∷ [])

  further_up :
      (f : ChainFetcher) (lo rounds : ℕ) (r : Option (ChainFetcher × List Tx))
      → (txs : List (MsgTx Hash)) × (block_at w node (lo + 1) ≡ some txs)
        × NoneSpends f.latest_tx.txid txs
      → Gives (λ (f', fetched). Outcome f (lo + 1) rounds f' fetched) r
      → Gives (λ (f', fetched). Outcome f lo (suc rounds) f' fetched) r
  further_up f lo rounds none clear o = tt
  further_up f lo rounds (some (_, _)) clear (none_found h e above) =
      none_found h (omega arith) (clear, above)
  further_up f lo rounds (some (_, _)) clear (next_found n h tx txs e few above at first) =
      next_found (suc n) h tx txs (omega arith) (omega arith) (clear, above) at first

  fetch_loop-Outcome :
      (rounds lo : ℕ) (f : ChainFetcher)
      → Gives (λ (f', fetched). Outcome f lo rounds f' fetched) (fetch_loop w node rounds lo f)
  unfolding fetch_loop
  fetch_loop-Outcome zero lo f = none_found lo (omega arith) tt
  fetch_loop-Outcome (suc rounds) lo f = elim (Option-cases (tx_in_block w node f (lo + 1))) [
    | inl failed ↦ rw failed tt
    | inr (none, clear) ↦ rw clear (
        further_up f lo rounds _ (tx_in_block-Spending f (lo + 1) none clear)
          (fetch_loop-Outcome rounds (lo + 1) f))
    | inr (some tx, found) ↦
        let (txs, at, first) = tx_in_block-Spending f (lo + 1) (some tx) found in
        rw found (next_found 0 (lo + 1) tx txs (omega arith) (omega arith) tt at first)
  ]

  -- A fetch that returns either finds that no transaction in the blocks above the latest height,
  -- up to the block count, spends the latest transaction by its first input, and moves on to the
  -- last of these blocks; or it gives the first one that does, as the node answers it, keeps it
  -- as the latest, and moves on to its block.
  pub fetch-Outcome :
      (f f' : ChainFetcher) (fetched : List Tx)
      → fetch w node f ≡ some (f', fetched)
      → (count : ℕ) × (node.get_block_count ≡ ok count)
        × Outcome f f.latest_height (count - f.latest_height) f' fetched
  unfolding fetch
  fetch-Outcome f f' fetched h =
      let (count, counted, looped) = >>=-some (or_fatal node.get_block_count) _ (f', fetched) h in
      let lo = f.latest_height in
      (
        count,
        or_fatal-some node.get_block_count count counted,
        subst (Gives (λ (g, txs). Outcome f lo (count - lo) g txs)) looped
            (fetch_loop-Outcome (count - lo) lo f),
      )
