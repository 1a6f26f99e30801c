-- ===== src/Signer.antt =====
-- attestation/attestsigner_http.go: the signer that talks to a remote service over HTTP. The
-- package variables are a record; a byte is a number below 256 and `none` is a panic.
pub mod Frames
pub mod Sigs
pub mod Fake
mod Tests
use mainstay.Prelude.{
  ℕ, zero, suc, ◌+◌, ◌%◌, Option, none, some, List, [], ◌∷◌, ◌++◌, if◌then◌else◌, length, get_elem?,
  take, drop, replicate, ltb, leb,
}
use mainstay.Prelude.Panic.{◌>>=◌, store}
use mainstay.Script.{Sig}

-- The loop of SerializeBytes.
unfoldable pub serialize_from : List ℕ → List (List ℕ) → List ℕ
serialize_from serialized [] = serialized
serialize_from serialized (x ∷ xs) = serialize_from ((serialized ++ length x % 256 ∷ []) ++ x) xs

unfoldable pub serialize_bytes : List (List ℕ) → List ℕ
unfolding serialize_from
serialize_bytes xs = serialize_from [] xs

-- `for it < len(data)`, on fuel: `it` grows in each round. The read at `it` is within bounds.
unfoldable pub unserialize_loop : ℕ → ℕ → List (List ℕ) → List ℕ → List (List ℕ)
unserialize_loop zero it data_list bytes = data_list
unserialize_loop (suc fuel) it data_list bytes = elim (get_elem? bytes it) [
  | none ↦ data_list
  | some size ↦
      if ltb (length bytes) (size + 1 + it)
      then data_list
      else (let rest =
            unserialize_loop fuel (it + 1 + size)
              (data_list ++ take size (drop (it + 1) bytes) ∷ []) bytes in
          rest)
]

unfoldable pub unserialize_bytes : List ℕ → List (List ℕ)
unfolding unserialize_loop
unserialize_bytes bytes = unserialize_loop (length bytes) 0 [] bytes

-- signerTxPreImageBytes and signerConfirmedHashBytes
pub record SignerStore : Type 0 where
  pub tx_pre_image_bytes : List ℕ
  pub confirmed_hash_bytes : List ℕ

unfoldable pub re_subscribe : SignerStore → SignerStore
re_subscribe s = s

unfoldable pub send_confirmed_hash : List ℕ → SignerStore → SignerStore
send_confirmed_hash hash s = record s { confirmed_hash_bytes = hash }

unfoldable pub send_tx_pre_images : List (List ℕ) → SignerStore → SignerStore
send_tx_pre_images txs s = record s { tx_pre_image_bytes = serialize_bytes txs }

-- What the HTTP request gives: an error, after which `resp.Body` dereferences nil, or a body; its
-- hex decoding is the argument.
pub data Answer : Type 0 where
  request_failed : Answer
  answered : Sig → Answer

-- `sigs[0][0] = sig` in the slice of nil slices that `make` gives.
unfoldable pub get_sigs : Answer → SignerStore → Option (List (List Sig))
get_sigs request_failed s = none
get_sigs (answered sig) s =
    let tx_pre_images = unserialize_bytes s.tx_pre_image_bytes in
    let sigs = replicate (length tx_pre_images) [] in
    get_elem? sigs 0 >>= λ row. store row 0 sig >>= λ row'. store sigs 0 row'
