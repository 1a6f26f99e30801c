-- ===== src/SidechainClients.antt =====
-- clients/sidechainclient.go, sidechainclient_ocean.go and sidechainclient_fake.go: what the tools and
-- the tests ask a sidechain. `none` is a panic, an index out of range. Close has no effect here.
pub mod Heights
mod Tests
use mainstay.Prelude.{
  ℕ, suc, ◌+◌, Option, none, some, List, [], ◌∷◌, String, str_eq, if◌then◌else◌, length, get_elem?,
}
use mainstay.Prelude.Int.{ℤ, pos, negsuc, ◌+ℤ◌, wrap32}
use mainstay.Prelude.Panic.{◌>>=◌, maybe}
use mainstay.Wire.{Wire, Result, ok, err}

-- The answers of the RPC client: a pair of a value and an error; for GetBlockHeaderVerbose and
-- GetRawTransactionVerbose the field that is read of them.
pub record Rpc (Hash Block : Type 0) : Type 0 where
  pub block_count : Result ℤ
  pub best_block_hash : Result Hash
  pub header_height : Hash → Result ℤ
  pub block_hash : ℤ → Result Hash
  pub block : Hash → Result Block
  pub tx_block_hash : Hash → Result String

-- The interface SidechainClient.
pub record SidechainClient (Hash Block : Type 0) : Type 0 where
  pub get_best_block_hash : Option (Result Hash)
  pub get_block_height : Hash → Option (Result ℤ)
  pub get_block_hash : ℤ → Option (Result Hash)
  pub get_block : Hash → Option (Result (Option Block))
  pub get_tx_block_hash : Hash → Option (Result String)
  pub get_block_count : Option (Result ℤ)

abbrev there_is : {A : Type 0} → Result A → Result (Option A)
there_is (ok a) = ok (some a)
there_is (err e) = err e

-- Behind an error Ocean gives -1, nil or the empty text, which are no values here.
unfoldable pub sidechain_client_ocean :
    {Hash Block : Type 0} → Rpc Hash Block → SidechainClient Hash Block
sidechain_client_ocean rpc = record {
  get_best_block_hash = some rpc.best_block_hash;
  get_block_height = λ hash. some (rpc.header_height hash);
  get_block_hash = λ height. some (rpc.block_hash height);
  get_block = λ hash. some (there_is (rpc.block hash));
  get_tx_block_hash = λ hash. some (rpc.tx_block_hash hash);
  get_block_count = some rpc.block_count;
}

unfoldable pub blocks : List String
blocks =
    "1a39e34e881d9a1e6cdc3418b54aa57747106bc75e9e84426661f27f98ada3b7"
    ∷ "2a39e34e881d9a1e6cdc3418b54aa57747106bc75e9e84426661f27f98ada3b7"
    ∷ "3a39e34e881d9a1e6cdc3418b54aa57747106bc75e9e84426661f27f98ada3b7"
    ∷ "4a39e34e881d9a1e6cdc3418b54aa57747106bc75e9e84426661f27f98ada3b7"
    ∷ "5a39e34e881d9a1e6cdc3418b54aa57747106bc75e9e84426661f27f98ada3b7"
    ∷ "6a39e34e881d9a1e6cdc3418b54aa57747106bc75e9e84426661f27f98ada3b7"
    ∷ "7a39e34e881d9a1e6cdc3418b54aa57747106bc75e9e84426661f27f98ada3b7"
    ∷ "8a39e34e881d9a1e6cdc3418b54aa57747106bc75e9e84426661f27f98ada3b7"
    ∷ "9a39e34e881d9a1e6cdc3418b54aa57747106bc75e9e84426661f27f98ada3b7"
    ∷ "aa39e34e881d9a1e6cdc3418b54aa57747106bc75e9e84426661f27f98ada3b7"
    ∷ "ba39e34e881d9a1e6cdc3418b54aa57747106bc75e9e84426661f27f98ada3b7"
    ∷ "ca39e34e881d9a1e6cdc3418b54aa57747106bc75e9e84426661f27f98ada3b7"
    ∷ "da39e34e881d9a1e6cdc3418b54aa57747106bc75e9e84426661f27f98ada3b7"
    ∷ "ea39e34e881d9a1e6cdc3418b54aa57747106bc75e9e84426661f27f98ada3b7"
    ∷ "fa39e34e881d9a1e6cdc3418b54aa57747106bc75e9e84426661f27f98ada3b7" ∷ []

unfoldable pub block_txs : List (List String)
block_txs =
    ("195df0a1426b6050368d144e7a7886d654c4ed055cd0dd1280d2d9fc6aedea04" ∷ [])
    ∷ ("295df0a1426b6050368d144e7a7886d654c4ed055cd0dd1280d2d9fc6aedea04" ∷ [])
    ∷ ("395df0a1426b6050368d144e7a7886d654c4ed055cd0dd1280d2d9fc6aedea04" ∷ [])
    ∷ ("495df0a1426b6050368d144e7a7886d654c4ed055cd0dd1280d2d9fc6aedea04" ∷ [])
    ∷ ("595df0a1426b6050368d144e7a7886d654c4ed055cd0dd1280d2d9fc6aedea04" ∷ [])
    ∷ ("695df0a1426b6050368d144e7a7886d654c4ed055cd0dd1280d2d9fc6aedea04" ∷ [])
    ∷ ("795df0a1426b6050368d144e7a7886d654c4ed055cd0dd1280d2d9fc6aedea04" ∷ [])
    ∷ ("895df0a1426b6050368d144e7a7886d654c4ed055cd0dd1280d2d9fc6aedea04" ∷ [])
    ∷ ("995df0a1426b6050368d144e7a7886d654c4ed055cd0dd1280d2d9fc6aedea04" ∷ [])
    ∷ ("a95df0a1426b6050368d144e7a7886d654c4ed055cd0dd1280d2d9fc6aedea04" ∷ [])
    ∷ ("b95df0a1426b6050368d144e7a7886d654c4ed055cd0dd1280d2d9fc6aedea04" ∷ [])
    ∷ ("c95df0a1426b6050368d144e7a7886d654c4ed055cd0dd1280d2d9fc6aedea04" ∷ [])
    ∷ ("d95df0a1426b6050368d144e7a7886d654c4ed055cd0dd1280d2d9fc6aedea04" ∷ [])
    ∷ ("e95df0a1426b6050368d144e7a7886d654c4ed055cd0dd1280d2d9fc6aedea04" ∷ [])
    ∷ ("f95df0a1426b6050368d144e7a7886d654c4ed055cd0dd1280d2d9fc6aedea04" ∷ [])
    ∷ []

-- The state is the height, an `int32`.
pub record SidechainClientFake : Type 0 where
  pub height : ℤ

unfoldable pub new_sidechain_client_fake : SidechainClientFake
new_sidechain_client_fake = record { height = pos 0 }

unfoldable pub generate : ℤ → SidechainClientFake → SidechainClientFake
generate height f = record { height = wrap32 (f.height +ℤ height) }

-- `blocks[height]`
abbrev block_at : ℤ → Option String
block_at (pos n) = get_elem? blocks n
block_at (negsuc n) = none

-- The first index of a text.
unfoldable pub index_from : ℕ → List String → String → Option ℕ
index_from i [] s = none
index_from i (value ∷ rest) s =
    let later = index_from (i + 1) rest s in if str_eq value s then some i else later

abbrev contains : List String → String → Option (Unit {0})
contains [] s = none
contains (value ∷ rest) s = if str_eq value s then some tt else contains rest s

-- The loop over the blocks with their transactions; a block without a list of them panics.
unfoldable pub tx_block_from : List String → List (List String) → String → Option (Result String)
tx_block_from [] txs s = some (err "Tx not found")
tx_block_from (name ∷ names) [] s = none
tx_block_from (name ∷ names) (txs ∷ rest) s =
    let later = tx_block_from names rest s in maybe (contains txs s) later λ _. some (ok name)

abbrev txs_at : ℤ → Option (List String)
txs_at (pos n) = get_elem? block_txs n
txs_at (negsuc n) = none

abbrev txs_of : Result ℤ → Option (Result (List String))
txs_of (err e) = some (err e)
txs_of (ok height) = txs_at height >>= λ txs. some (ok txs)

module _ {Hash : Type 0} (w : Wire Hash) where
  abbrev hash_of : String → Result Hash
  hash_of s = maybe (w.hash_of_string s) (err "hash") λ hash. ok hash

  unfoldable pub block_height : Hash → Result ℤ
  unfolding index_from blocks
  block_height hash =
      maybe (index_from 0 blocks (w.hash_string hash)) (err "Block not found") λ i. ok (pos i)

  unfoldable pub sidechain_client_fake :
      {Block : Type 0} → SidechainClientFake → SidechainClient Hash Block
  unfolding block_height tx_block_from blocks block_txs
  sidechain_client_fake f = record {
    get_best_block_hash = block_at f.height >>= λ s. some (hash_of s);
    get_block_height = λ hash. some (block_height hash);
    get_block_hash = λ height. block_at height >>= λ s. some (hash_of s);
    get_block = λ hash. some (ok none);
    get_tx_block_hash = λ hash. tx_block_from blocks block_txs (w.hash_string hash);
    get_block_count = some (ok (pos (length blocks)));
  }

  unfoldable pub get_block_txs : Hash → Option (Result (List String))
  unfolding block_height block_txs
  get_block_txs hash = txs_of (block_height hash)
