-- ===== src/Signer/Tests.antt =====
-- The signer on concrete bytes.
use mainstay.Prelude.{ℕ, arith, ◌≡◌, refl, none, List, [], ◌∷◌}
use mainstay.Signer.{
  SignerStore, answered, serialize_from, serialize_bytes, unserialize_bytes, get_sigs,
}
use mainstay.Signer.Frames.{unserialize_bytes-serialize}
use mainstay.Signer.Sigs.{get_sigs-panics}

abbrev two_slices : List (List ℕ)
two_slices = (5 ∷ 6 ∷ []) ∷ [] ∷ (7 ∷ []) ∷ []

serialized : serialize_bytes two_slices ≡ 2 ∷ 5 ∷ 6 ∷ 0 ∷ 1 ∷ 7 ∷ []
unfolding serialize_bytes serialize_from
serialized = refl

unserialize_bytes-serialize_example : unserialize_bytes (serialize_bytes two_slices) ≡ two_slices
unserialize_bytes-serialize_example =
    unserialize_bytes-serialize two_slices (omega arith, (omega arith, (omega arith, tt)))

abbrev one_pre_image : SignerStore
one_pre_image = record { tx_pre_image_bytes = 2 ∷ 5 ∷ 6 ∷ []; confirmed_hash_bytes = [] }

get_sigs-panics_example : get_sigs (answered (48 ∷ [])) one_pre_image ≡ none
get_sigs-panics_example = get_sigs-panics (answered (48 ∷ [])) one_pre_image
