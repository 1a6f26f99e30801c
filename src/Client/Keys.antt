-- ===== src/Client/Keys.antt =====
-- attestation/attestclient.go: the keys and addresses of attestations, GetNextAttestationKey,
-- GetNextAttestationAddr, ImportAttestationAddr, GetKeyFromHash and GetScriptFromHash.
use mainstay.Prelude.{ℕ, Bool, true, Option, none, some, List, [], ◌∷◌, ◌==◌, if◌then◌else◌, length}
use mainstay.Prelude.Panic.{◌>>=◌, maybe}
use mainstay.Hashing.{Hashing}
use mainstay.Wire.{Result, ok, err, ◌then_ok◌, ◌or_return◌}
use mainstay.Script.Multisig.{Keys, create_multisig}
use mainstay.Tweak.{Curve, Wif, tweak_extended_key, get_address_from_priv_key}
use mainstay.Client.{AttestClient}

-- The fields with keys, beside the others. A pointer may be nil.
pub record KeyClient (Key Pub : Type 0) : Type 0 where
  pub base : AttestClient
  pub pubkeys_extended : List Key
  pub pubkeys : List Pub
  pub chaincodes : List (List ℕ)
  pub wallet_priv : Option Wif
  pub wallet_priv_topup : Option Wif
  pub wallet_chain_code : List ℕ

-- What the code takes from btcec, btcutil and hdkeychain: keys and addresses, the number of a
-- private key as bytes, extended keys made of the bytes of a key and a chaincode, and their
-- methods Child, ECPubKey and ECPrivKey.
pub record KeyTools (Key Pub Address : Type 0) : Type 0 where
  pub keys : Keys Pub Address
  pub curve : Curve Pub Address
  pub serialize_priv : ℕ → List ℕ
  pub new_extended_priv : List ℕ → List ℕ → Key
  pub new_extended_pub : List ℕ → List ℕ → Key
  pub child : Key → ℕ → Result Key
  pub ec_pub_key : Key → Result Pub
  pub ec_priv_key : Key → Result ℕ
  pub is_equal : Pub → Pub → Bool

-- The value of a call whose error is dropped: nil is dereferenced.
abbrev pub or_nil : {A : Type 0} → Result A → Option A
or_nil (ok a) = some a
or_nil (err e) = none

module _ {Key Pub Address : Type 0} (t : KeyTools Key Pub Address) where
  -- The loop that tweaks the extended keys.
  unfoldable pub tweaked_keys : List Key → List ℕ → Result (List Pub)
  tweaked_keys [] hash_bytes = ok []
  tweaked_keys (pub_key ∷ rest) hash_bytes =
      tweak_extended_key t.child pub_key hash_bytes then_ok λ tweaked_key.
      t.ec_pub_key tweaked_key then_ok λ tweaked_pub.
      tweaked_keys rest hash_bytes then_ok λ tweaked. ok (tweaked_pub ∷ tweaked)

  -- Without a multisig, the address of the key; `none` is a panic on a nil key.
  unfoldable pub single_addr : Option Wif → Option (Result (Address × List ℕ))
  single_addr key = key >>= λ wif.
      some (get_address_from_priv_key t.curve wif then_ok λ my_addr. ok (my_addr, []))

-- `rescan` is the variadic flag, and the answer that of ImportAddressRescan for it.
unfoldable pub import_attestation_addr :
    {Address : Type 0}
    → (Address → Bool → Result (Unit {0}))
    → Address
    → List Bool
    → Result (Unit {0})
import_attestation_addr import_address_rescan addr [] = import_address_rescan addr true
import_attestation_addr import_address_rescan addr (rescan ∷ _) = import_address_rescan addr rescan

module _ {Hash Key Pub Address : Type 0} ⦃c : Hashing Hash⦄ (t : KeyTools Key Pub Address) where
  unfoldable pub is_zero_hash : Hash → Bool
  is_zero_hash hash = c.beq hash c.zero_hash

  -- The private key tweaked by a hash, as a wallet key.
  unfoldable pub tweaked_wallet_priv : KeyClient Key Pub → Wif → Hash → Result Wif
  tweaked_wallet_priv w wif hash =
      tweak_extended_key t.child
        (t.new_extended_priv (t.serialize_priv wif.priv_key) w.wallet_chain_code) (c.bytes hash)
      then_ok λ tweaked_extnd_key. t.ec_priv_key tweaked_extnd_key then_ok λ tweaked_extnd_priv.
          t.curve.new_wif tweaked_extnd_priv wif.compress_pub_key

  -- A client that is no signer gives nil and no error.
  unfoldable pub get_next_attestation_key : KeyClient Key Pub → Hash → Result (Option Wif)
  unfolding tweaked_wallet_priv
  get_next_attestation_key w hash =
      maybe w.wallet_priv (ok none)
        λ wif. tweaked_wallet_priv w wif hash then_ok λ tweaked. ok (some tweaked)

  unfoldable pub get_next_attestation_addr :
      KeyClient Key Pub → Option Wif → Hash → Option (Result (Address × List ℕ))
  unfolding tweaked_keys single_addr is_zero_hash
  get_next_attestation_addr w key hash =
      if length w.pubkeys_extended == 0
      then single_addr t key
      else if is_zero_hash hash
      then some (ok (create_multisig t.keys w.pubkeys w.base.num_of_sigs))
      else some (
          tweaked_keys t w.pubkeys_extended (c.bytes hash) then_ok λ tweaked.
          ok (create_multisig t.keys tweaked w.base.num_of_sigs))

  unfoldable pub get_key_from_hash : KeyClient Key Pub → Hash → Option Wif
  unfolding tweaked_wallet_priv is_zero_hash
  get_key_from_hash w hash = w.wallet_priv >>= λ wif.
      if is_zero_hash hash then some wif else or_nil (tweaked_wallet_priv w wif hash)

  unfoldable pub get_script_from_hash : KeyClient Key Pub → Hash → Option (Result (List ℕ))
  unfolding get_next_attestation_addr is_zero_hash
  get_script_from_hash w hash =
      if is_zero_hash hash
      then some (ok w.base.script0)
      else (get_next_attestation_addr w w.wallet_priv hash or_return λ (_, redeem_script).
          some (ok redeem_script))
