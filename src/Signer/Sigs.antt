-- ===== src/Signer/Sigs.antt =====
-- attestation/attestsigner_http.go: what GetSigs does.
use mainstay.Prelude.{ℕ, zero, suc, ◌≡◌, refl, none, List, [], length, replicate, get_elem?}
use mainstay.Prelude.Panic.{◌>>=◌, store}
use mainstay.Script.{Sig}
use mainstay.Signer.{SignerStore, Answer, request_failed, answered, unserialize_bytes, get_sigs}

row_missing :
    (n : ℕ) (sig : Sig)
    → let sigs : List (List Sig) = replicate n [] in
      (get_elem? sigs 0 >>= λ row. store row 0 sig >>= λ row'. store sigs 0 row') ≡ none
row_missing zero sig = refl
row_missing (suc n) sig = refl

-- Whatever the pre-images and the answer of the signer service are, GetSigs panics: it writes to
-- the first entry of an empty slice.
pub get_sigs-panics : (answer : Answer) (s : SignerStore) → get_sigs answer s ≡ none
unfolding get_sigs
get_sigs-panics request_failed s = refl
get_sigs-panics (answered sig) s = row_missing (length (unserialize_bytes s.tx_pre_image_bytes)) sig
