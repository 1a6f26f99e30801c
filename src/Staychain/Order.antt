-- ===== src/Staychain/Order.antt =====
-- The order in which a client receives the transactions of the staychain.
use mainstay.Prelude.{
  ℕ, ◌-◌, ◌≤◌, ◌≡◌, refl, sym, ap, ◌∙◌, arith, some, List, [], ◌∷◌, ◌++◌, ◌∈◌, length,
  length-append, inl, inr,
}
use mainstay.Wire.{Wire, MsgTx}
use mainstay.Staychain.{
  Tx, Node, ChainFetcher, Chain, Step, fetched, sent, taken, Reach, here, there, block_at, fetch,
  new_chain, updates_buffer_size,
}
use mainstay.Staychain.Fetch.{Outcome, none_found, next_found, fetch-Outcome, FirstSpends}
use mathlib.Core.Path.{subst}
use mathlib.Core.List.{append-nil, append_assoc}

module _ {Hash : Type 0} (w : Wire Hash) where
  -- The nodes, one as it answers at one time, that the fetches of a run asked, the first one first.
  abbrev pub asked : {c d : Chain} → Reach w c d → List (Node Hash)
  asked here = []
  asked (there reach (fetched c node f txs e)) = asked reach ++ node ∷ []
  asked (there reach (sent c first rest e room)) = asked reach
  asked (there reach (taken c first rest e)) = asked reach

  -- A block that a node of the list gives holds a transaction that spends an output of `prev` by
  -- its first input; `next` is what this node answers for the first one that does.
  abbrev pub Spends : List (Node Hash) → Tx → Tx → Type 0
  Spends nodes prev next =
      (node : Node Hash) × (node ∈ nodes)
      × (height : ℕ) × (block : List (MsgTx Hash)) × (block_at w node height ≡ some block)
      × FirstSpends w node prev.txid next block

  -- Each transaction behind `prev` spends the one before it; the last is `latest`.
  abbrev pub Linked : List (Node Hash) → Tx → List Tx → Tx → Type 0
  Linked nodes prev [] latest = prev ≡ latest
  Linked nodes prev (tx ∷ txs) latest = Spends nodes prev tx × Linked nodes tx txs latest

  -- What has been fetched so far, in its order.
  abbrev pub history : Chain → List Tx
  history c = c.received ++ (c.updates ++ c.pending)

  pub record IsOrdered (nodes : List (Node Hash)) (first : Tx) (c : Chain) : Type 0 where
    pub behind : List Tx
    pub all : history c ≡ first ∷ behind
    pub linked : Linked nodes first behind c.fetcher.latest_tx
    pub bounded : length c.updates ≤ updates_buffer_size

  ∈-more :
      (node last : Node Hash) (nodes : List (Node Hash)) → node ∈ nodes → node ∈ nodes ++ last ∷ []
  ∈-more node last [] known = elim known [ ]
  ∈-more node last (n ∷ ns) (inl same) = inl same
  ∈-more node last (n ∷ ns) (inr later) = inr (∈-more node last ns later)

  ∈-last : (last : Node Hash) (nodes : List (Node Hash)) → last ∈ nodes ++ last ∷ []
  ∈-last last [] = inl refl
  ∈-last last (n ∷ ns) = inr (∈-last last ns)

  Linked-more :
      (last : Node Hash) (nodes : List (Node Hash)) (prev latest : Tx) (txs : List Tx)
      → Linked nodes prev txs latest
      → Linked (nodes ++ last ∷ []) prev txs latest
  Linked-more last nodes prev latest [] same = same
  Linked-more last nodes prev latest (tx ∷ txs) ((node, known, height, block, at, found), linked) =
      (
        (node, ∈-more node last nodes known, height, block, at, found),
        Linked-more last nodes tx latest txs linked,
      )

  Linked-snoc :
      (nodes : List (Node Hash)) (prev latest next : Tx) (txs : List Tx)
      → Linked nodes prev txs latest
      → Spends nodes latest next
      → Linked nodes prev (txs ++ next ∷ []) next
  Linked-snoc nodes prev latest next [] same spends =
      (subst (λ t. Spends nodes t next) (sym same) spends, refl)
  Linked-snoc nodes prev latest next (tx ∷ txs) (spends, linked) further =
      (spends, Linked-snoc nodes tx latest next txs linked further)

  -- What a fetch adds.
  fetched-Linked :
      (nodes : List (Node Hash)) (node : Node Hash) (first : Tx) (f f' : ChainFetcher)
      (txs behind : List Tx)
      → fetch w node f ≡ some (f', txs)
      → Linked nodes first behind f.latest_tx
      → Linked (nodes ++ node ∷ []) first (behind ++ txs) f'.latest_tx
  fetched-Linked nodes node first f f' txs behind e linked =
      let (count, _, outcome) = fetch-Outcome w node f f' txs e in
      Outcome-Linked f.latest_height (count - f.latest_height) f' txs outcome
    where
      Outcome-Linked :
          (lo rounds : ℕ) (g : ChainFetcher) (new : List Tx)
          → Outcome w node f lo rounds g new
          → Linked (nodes ++ node ∷ []) first (behind ++ new) g.latest_tx
      Outcome-Linked lo rounds g new (none_found h _ _) =
          rw append-nil (Linked-more node nodes first f.latest_tx behind linked)
      Outcome-Linked lo rounds g new (next_found n h tx block _ _ _ at found) =
          Linked-snoc (nodes ++ node ∷ []) first f.latest_tx tx behind
            (Linked-more node nodes first f.latest_tx behind linked)
            (node, ∈-last node nodes, h, block, at, found)

  regroup : (r u p t : List Tx) → r ++ (u ++ (p ++ t)) ≡ (r ++ (u ++ p)) ++ t
  regroup r u p t = simp append_assoc

  Step-IsOrdered :
      {start : Chain} (first : Tx) (c d : Chain) (reach : Reach w start c) (step : Step w c d)
      → IsOrdered (asked reach) first c
      → IsOrdered (asked (there reach step)) first d
  Step-IsOrdered first _ _ reach (fetched c node f txs e) o = record {
    behind = o.behind ++ txs;
    all = regroup c.received c.updates c.pending txs ∙ ap (λ l. l ++ txs) o.all;
    linked = fetched-Linked (asked reach) node first c.fetcher f txs o.behind e o.linked;
    bounded = o.bounded;
  }
  Step-IsOrdered first _ _ reach (sent c x rest e room) o = record {
    behind = o.behind;
    all = ap (λ l. c.received ++ l) (append_assoc c.updates (x ∷ []) rest) ∙ (rw e at o.all);
    linked = o.linked;
    bounded = omega (arith, length-append c.updates (x ∷ []));
  }
  Step-IsOrdered first _ _ reach (taken c x rest e) o = record {
    behind = o.behind;
    all = append_assoc c.received (x ∷ []) (rest ++ c.pending) ∙ (rw e at o.all);
    linked = o.linked;
    bounded = (let full : length (x ∷ rest) ≤ 10 = rw e at o.bounded in omega arith);
  }

  -- From any start that is in order.
  asked-IsOrdered :
      {start : Chain} (first : Tx) (c : Chain) (reach : Reach w start c)
      → IsOrdered [] first start
      → IsOrdered (asked reach) first c
  asked-IsOrdered first c here o = o
  asked-IsOrdered first d (there {c} reach step) o =
      Step-IsOrdered first c d reach step (asked-IsOrdered first c reach o)

  new_chain-IsOrdered : (f : ChainFetcher) → IsOrdered [] f.latest_tx (new_chain f)
  unfolding new_chain
  new_chain-IsOrdered f = record { behind = []; all = refl; linked = refl; bounded = omega arith }

  -- The same from a start that is equal to the one of a fetcher.
  pub start-IsOrdered :
      (f : ChainFetcher) {start : Chain} (c : Chain) (reach : Reach w start c)
      → start ≡ new_chain f
      → IsOrdered (asked reach) f.latest_tx c
  start-IsOrdered f c reach e =
      asked-IsOrdered f.latest_tx c reach
        (subst (IsOrdered [] f.latest_tx) (sym e) (new_chain-IsOrdered f))

  -- Whatever the nodes that are asked answer, what a client has received, what waits in the
  -- channel, and what waits to be sent make up, in this order, a chain that begins with the initial
  -- transaction and ends with the latest one of the fetcher. Each one behind the first spends the
  -- one before it: a block of a node that a fetch of this run asked holds a transaction whose first
  -- input spends an output of the one before, and it is what that node answers for the first such
  -- transaction of the block. At most ten wait in the channel.
  pub Reach-IsOrdered :
      (f : ChainFetcher) (c : Chain) (reach : Reach w (new_chain f) c)
      → IsOrdered (asked reach) f.latest_tx c
  Reach-IsOrdered f c reach = start-IsOrdered f c reach refl
