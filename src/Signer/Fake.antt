-- ===== src/Signer/Fake.antt =====
-- attestation/attestsigner_fake.go: the signers of the tests, clients with keys of their own. The
-- package variables are a SignerStore; `none` is a panic on a nil key.
use mainstay.Prelude.{
  ℕ, ◌+◌, true, Option, none, some, List, [], ◌∷◌, ◌++◌, ◌==◌, if◌then◌else◌, length, replicate,
}
use mainstay.Prelude.Panic.{◌>>=◌}
use mainstay.Hashing.{Hashing}
use mainstay.Wire.{Result, ok, err}
use mainstay.Script.{Sig}
use mainstay.Signer.{SignerStore, serialize_bytes, unserialize_bytes}
use mainstay.Fees.{FeeResponse}
use mainstay.Client.New.{new_attest_client}
use mainstay.Config.Load.{Config}
use mainstay.Client.Keys.{KeyClient, KeyTools, get_key_from_hash}

-- The clients of NewAttestSignerFake, made with the flag that allows signing; each comes with what
-- its fee API answers.
unfoldable pub new_attest_signer_fake :
    {Key Pub Address Client : Type 0}
    → KeyTools Key Pub Address
    → List (FeeResponse × Config Client)
    → Option (List (KeyClient Key Pub))
unfolding new_attest_client
new_attest_signer_fake t [] = some []
new_attest_signer_fake t ((answer, config) ∷ configs) =
    new_attest_client t answer config (true ∷ []) >>= λ client.
    new_attest_signer_fake t configs >>= λ clients. some (client ∷ clients)

-- ReSubscribe does nothing; the others keep their bytes.
unfoldable pub re_subscribe : SignerStore → SignerStore
re_subscribe s = s

unfoldable pub send_confirmed_hash : List ℕ → SignerStore → SignerStore
send_confirmed_hash hash s = record s { confirmed_hash_bytes = hash }

unfoldable pub send_tx_pre_images : List (List ℕ) → SignerStore → SignerStore
send_tx_pre_images txs s = record s { tx_pre_image_bytes = serialize_bytes txs }

-- `new_hash` is chainhash.NewHash, `sign` the method Sign of a private key, serialized.
module _ {Hash Key Pub Address : Type 0} ⦃c : Hashing Hash⦄ (t : KeyTools Key Pub Address)
    (sign : ℕ → Hash → Result (List ℕ)) where
  -- The key for the image with index i: the tweaked one for the first.
  unfoldable pub signing_key : KeyClient Key Pub → Hash → ℕ → Option ℕ
  signing_key client hash i =
      if i == 0
      then (get_key_from_hash t client hash >>= λ wif. some wif.priv_key)
      else (client.wallet_priv_topup >>= λ wif. some wif.priv_key)

  -- `some none` is `return nil`.
  unfoldable pub sig_of : KeyClient Key Pub → Hash → ℕ → List ℕ → Option (Option Sig)
  unfolding signing_key
  sig_of client hash i tx_pre_image = signing_key client hash i >>= λ priv.
      some (with_type (sign priv (c.double_hash_h (tx_pre_image ++ 1 ∷ 0 ∷ 0 ∷ 0 ∷ []))))
    where
      with_type : Result (List ℕ) → Option Sig
      with_type (ok sig) = some (sig ++ 1 ∷ [])
      with_type (err e) = none

  infixl 5 ◌or_nil◌
  abbrev ◌or_nil◌ : {A B : Type 0} → Option (Option A) → (A → Option (Option B)) → Option (Option B)
  none or_nil rest = none
  some none or_nil rest = some none
  some (some a) or_nil rest = rest a

  -- The loop over the images: each row of signatures gets one more.
  unfoldable pub sign_images :
      KeyClient Key Pub
      → Hash
      → ℕ
      → List (List ℕ)
      → List (List Sig)
      → Option (Option (List (List Sig)))
  unfolding sig_of
  sign_images client hash i [] sigs = some (some sigs)
  sign_images client hash i (image ∷ images) [] = none
  sign_images client hash i (image ∷ images) (row ∷ rows) = sig_of client hash i image or_nil λ sig.
      sign_images client hash (i + 1) images rows or_nil λ rest.
      some (some ((row ++ sig ∷ []) ∷ rest))

  -- The loop over the clients.
  unfoldable pub sign_all :
      List (KeyClient Key Pub)
      → Hash
      → List (List ℕ)
      → List (List Sig)
      → Option (Option (List (List Sig)))
  unfolding sign_images
  sign_all [] hash images sigs = some (some sigs)
  sign_all (client ∷ clients) hash images sigs =
      sign_images client hash 0 images sigs or_nil sign_all clients hash images

  -- A nil slice is the empty list.
  unfoldable pub get_sigs :
      (List ℕ → Result Hash) → List (KeyClient Key Pub) → SignerStore → Option (List (List Sig))
  unfolding sign_all
  get_sigs new_hash clients s = with_hash (new_hash s.confirmed_hash_bytes)
    where
      or_empty : Option (List (List Sig)) → List (List Sig)
      or_empty none = []
      or_empty (some sigs) = sigs

      with_hash : Result Hash → Option (List (List Sig))
      with_hash (err e) = some []
      with_hash (ok hash) =
          let images = unserialize_bytes s.tx_pre_image_bytes in
          sign_all clients hash images (replicate (length images) []) >>= λ sigs.
          some (or_empty sigs)
