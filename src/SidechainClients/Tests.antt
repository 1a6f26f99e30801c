-- ===== src/SidechainClients/Tests.antt =====
-- Runs of the fake sidechain, with hashes that are texts.
use mainstay.Prelude.{◌≡◌, refl, ℕ, some, none, String, []}
use mainstay.Prelude.Int.{pos, negsuc, wrap32, ◌+ℤ◌}
use mainstay.Wire.{Wire, ok, err}
use mainstay.SidechainClients.{
  SidechainClientFake, new_sidechain_client_fake, generate, sidechain_client_fake, get_block_txs,
}

abbrev text_wire : Wire String
text_wire = record {
  hash_string = λ s. s;
  hash_of_string = some;
  tx_hash = λ tx. "";
  serialize = λ tx. [];
  serialize_size = λ tx. 10;
  var_int_size = λ n. 1;
}

abbrev third : SidechainClientFake
third = record { height = pos 2 }

generated : generate (pos 2) new_sidechain_client_fake ≡ third
unfolding generate new_sidechain_client_fake wrap32 ◌+ℤ◌
generated = refl

best :
    (sidechain_client_fake text_wire {Block = ℕ} third).get_best_block_hash
    ≡ some (ok "3a39e34e881d9a1e6cdc3418b54aa57747106bc75e9e84426661f27f98ada3b7")
unfolding sidechain_client_fake
best = refl

too_high :
    (sidechain_client_fake text_wire {Block = ℕ} (record { height = pos 15 })).get_best_block_hash
    ≡ none
unfolding sidechain_client_fake
too_high = refl

height :
    (sidechain_client_fake text_wire {Block = ℕ} third).get_block_height
      "3a39e34e881d9a1e6cdc3418b54aa57747106bc75e9e84426661f27f98ada3b7"
    ≡ some (ok (pos 2))
unfolding sidechain_client_fake
height = refl

block_of_tx :
    (sidechain_client_fake text_wire {Block = ℕ} third).get_tx_block_hash
      "295df0a1426b6050368d144e7a7886d654c4ed055cd0dd1280d2d9fc6aedea04"
    ≡ some (ok "2a39e34e881d9a1e6cdc3418b54aa57747106bc75e9e84426661f27f98ada3b7")
unfolding sidechain_client_fake
block_of_tx = refl

unknown : get_block_txs text_wire "x" ≡ some (err "Block not found")
unfolding get_block_txs
unknown = refl

negative : (sidechain_client_fake text_wire {Block = ℕ} third).get_block_hash (negsuc 0) ≡ none
unfolding sidechain_client_fake
negative = refl
