-- ===== src/MultisigTool/Script.antt =====
-- The script that the tool makes is that of CreateMultisig.
use mathlib.Core.List.{append_assoc}
use mainstay.Script.Redeem.{IsCompressed}
use mainstay.Prelude.{
  ℕ, zero, suc, ◌/◌, ◌%◌, ◌<◌, ◌≡◌, refl, ap, ◌∙◌, ◌≢◌, arith, none, some, List, [], ◌∷◌, ◌++◌, map,
  length,
}
use mainstay.Hex.{hex_digit, encode_to_string, decimal}
use mainstay.Hex.Laws.{AllBytes, decode_string-encode}
use mainstay.Script.Multisig.{Keys, append_keys, create_multisig}
use mainstay.MultisigTool.{
  finished, Coordinates, split, append_pubs, info_from_pubs, pub_from_coordinates, pubs_from,
}

-- Texts with commas between them.
abbrev pub join : List (List ℕ) → List ℕ
join [] = []
join (x ∷ []) = x
join (x ∷ y ∷ rest) = x ++ 44 ∷ join (y ∷ rest)

abbrev pub HasNoComma : List ℕ → Type 0
HasNoComma [] = Unit
HasNoComma (c ∷ s) = (c ≢ 44) × HasNoComma s

abbrev pub HaveNoComma : List (List ℕ) → Type 0
HaveNoComma [] = Unit
HaveNoComma (x ∷ xs) = HasNoComma x × HaveNoComma xs

split-plain : (x : List ℕ) → HasNoComma x → split x ≡ x ∷ []
unfolding split
split-plain [] h = refl
split-plain (c ∷ x) (ne, h) = rw (split-plain x h) (ground (arith, ne))

split-append : (x rest : List ℕ) → HasNoComma x → split (x ++ 44 ∷ rest) ≡ x ∷ split rest
unfolding split
split-append [] rest h = refl
split-append (c ∷ x) rest (ne, h) = rw (split-append x rest h) (ground (arith, ne))

pub split-join :
    (x : List ℕ) (xs : List (List ℕ)) → HaveNoComma (x ∷ xs) → split (join (x ∷ xs)) ≡ x ∷ xs
split-join x [] (h, hs) = split-plain x h
split-join x (y ∷ xs) (h, hs) = split-append x (join (y ∷ xs)) h ∙ ap (◌∷◌ x) (split-join y xs hs)

hex_digit-ne : (n : ℕ) → n < 16 → hex_digit n ≢ 44
hex_digit-ne n h = ground arith

encode-HasNoComma : (bs : List ℕ) → AllBytes bs → HasNoComma (encode_to_string bs)
unfolding encode_to_string
encode-HasNoComma [] h = tt
encode-HasNoComma (b ∷ bs) (h, hs) = (
  hex_digit-ne (b / 16) (omega arith),
  (hex_digit-ne (b % 16) (omega arith), encode-HasNoComma bs hs),
)

-- The text of a key, and the key that two coordinates give.
abbrev pub hex_key : {Pub Address : Type 0} → Keys Pub Address → Pub → List ℕ
hex_key k key = encode_to_string (k.serialize_compressed key)

abbrev pub point :
    {Pub Address : Type 0} → Keys Pub Address → Coordinates Pub → List ℕ × List ℕ → Pub
point k c (x, y) = pub_from_coordinates k c x y

module _ {Pub Address : Type 0} (k : Keys Pub Address) (h : IsCompressed k) where
  append_pubs-eq :
      (script : List ℕ) (keys : List Pub)
      → append_pubs k script (map (hex_key k) keys)
        ≡ some (append_keys k.serialize_compressed script keys)
  unfolding append_pubs append_keys
  append_pubs-eq script [] = refl
  append_pubs-eq script (key ∷ keys) =
      let fine = decode_string-encode (k.serialize_compressed key) (h.bytes key) in
      let text = encode_to_string (k.serialize_compressed key) in
      let moved = append_assoc script (50 ∷ 49 ∷ []) text in
      let ih = append_pubs-eq (script ++ 50 ∷ 49 ∷ text) keys in rw (fine, moved, ih) refl

  pub info_from_pubs-create :
      (keys : List Pub) (n_sigs : ℕ)
      → info_from_pubs k (map (hex_key k) keys) (length keys) n_sigs
        ≡ finished (create_multisig k keys n_sigs)
  unfolding info_from_pubs create_multisig
  info_from_pubs-create keys n_sigs = rw (append_pubs-eq (53 ∷ decimal n_sigs) keys) refl

  pub hex_keys-HaveNoComma : (keys : List Pub) → HaveNoComma (map (hex_key k) keys)
  hex_keys-HaveNoComma [] = tt
  hex_keys-HaveNoComma (key ∷ keys) =
      (encode-HasNoComma (k.serialize_compressed key) (h.bytes key), hex_keys-HaveNoComma keys)

module _ {Pub Address : Type 0} (k : Keys Pub Address) (c : Coordinates Pub) where
  pub pubs_from-points :
      (points : List (List ℕ × List ℕ))
      → pubs_from k c (length points) (map (λ p. p.0) points) (map (λ p. p.1) points)
        ≡ some (map (hex_key k) (map (point k c) points))
  unfolding pubs_from
  pubs_from-points [] = refl
  pubs_from-points (p ∷ points) = rw (pubs_from-points points) refl

  pub pubs_from-short_x :
      (n : ℕ) (xs ys : List (List ℕ)) → length xs < n → pubs_from k c n xs ys ≡ none
  unfolding pubs_from
  pubs_from-short_x zero xs ys short = absurd (omega arith)
  pubs_from-short_x (suc n) [] ys short = refl
  pubs_from-short_x (suc n) (x ∷ xs) [] short = refl
  pubs_from-short_x (suc n) (x ∷ xs) (y ∷ ys) short =
      rw (pubs_from-short_x n xs ys (omega arith)) refl

  pub pubs_from-short_y :
      (n : ℕ) (xs ys : List (List ℕ)) → length ys < n → pubs_from k c n xs ys ≡ none
  unfolding pubs_from
  pubs_from-short_y zero xs ys short = absurd (omega arith)
  pubs_from-short_y (suc n) [] ys short = refl
  pubs_from-short_y (suc n) (x ∷ xs) [] short = refl
  pubs_from-short_y (suc n) (x ∷ xs) (y ∷ ys) short =
      rw (pubs_from-short_y n xs ys (omega arith)) refl
