-- ===== src/MultisigTool/Run.antt =====
-- The runs of doMain, with the keys given by their texts or by their coordinates.
use mainstay.Prelude.{
  ℕ, ◌≤◌, ◌<◌, ◌≡◌, refl, sym, ap, ◌∙◌, ◌⊎◌, inl, inr, arith, not, ◌&&◌, ◌||◌, true, false, none,
  some, List, [], ◌∷◌, ◌++◌, map, length, ◌==◌, length-map,
}
use mainstay.Prelude.Int.{pos, pos_part}
use mainstay.Prelude.Panic.{◌>>=◌}
use mainstay.Hex.{encode_to_string}
use mainstay.Script.Multisig.{Keys, create_multisig}
use mainstay.Script.Redeem.{IsCompressed}
use mainstay.MultisigTool.{
  finished, Coordinates, Flags, invalid_numbers, split, is_empty_text, info_from_pubs, pubs_from,
  do_main,
}
use mainstay.MultisigTool.Script.{
  join, HaveNoComma, split-join, hex_key, hex_keys-HaveNoComma, info_from_pubs-create, point,
  pubs_from-points, pubs_from-short_x, pubs_from-short_y,
}

split-join_all : (xs : List (List ℕ)) → 0 < length xs → HaveNoComma xs → split (join xs) ≡ xs
split-join_all [] some_text h = absurd (omega arith)
split-join_all (x ∷ xs) some_text h = split-join x xs h

empty_append : (x y : List ℕ) → is_empty_text x ≡ false → is_empty_text (x ++ y) ≡ false
empty_append [] y given = cc
empty_append (c ∷ x) y given = refl

empty_join :
    (x : List ℕ) (xs : List (List ℕ))
    → is_empty_text x ≡ false
    → is_empty_text (join (x ∷ xs)) ≡ false
empty_join x [] given = given
empty_join x (y ∷ xs) given = empty_append x (44 ∷ join (y ∷ xs)) given

has_bytes : (bs : List ℕ) → length bs ≡ 33 → is_empty_text (encode_to_string bs) ≡ false
unfolding encode_to_string
has_bytes [] size = absurd (omega (arith, size))
has_bytes (b ∷ bs) size = refl

not_empty :
    {Pub Address : Type 0} (k : Keys Pub Address) (h : IsCompressed k) (keys : List Pub)
    → 0 < length keys
    → is_empty_text (join (map (hex_key k) keys)) ≡ false
not_empty k h [] some_key = absurd (omega arith)
not_empty k h (key ∷ keys) some_key =
    empty_join (hex_key k key) (map (hex_key k) keys)
      (has_bytes (k.serialize_compressed key) (h.size key))

same_number : (n : ℕ) → (n == n) ≡ true
same_number n = ground arith

module _ {Pub Address : Type 0} (k : Keys Pub Address) (c : Coordinates Pub) (f : Flags) (n s : ℕ)
    (n_keys : f.n_keys ≡ pos n) (n_sigs : f.n_sigs ≡ pos s) (one : 0 < s) (few : s ≤ n)
    (fit : n ≤ 15) where
  numbers_fine : invalid_numbers f.n_keys f.n_sigs ≡ false
  unfolding invalid_numbers
  numbers_fine = rw (n_keys, n_sigs) (ground (arith, one, few, fit))

  keys_run :
      is_empty_text f.keys ≡ false
      → length (split f.keys) ≡ n
      → do_main k c f ≡ some (info_from_pubs k (split f.keys) n s)
  unfolding do_main
  keys_run given size =
      let n' : pos_part f.n_keys ≡ n = ap pos_part n_keys in
      let s' : pos_part f.n_sigs ≡ s = ap pos_part n_sigs in
      let same = same_number n in rw (numbers_fine, n', s', given, size, same) refl

  points_run :
      is_empty_text f.keys ≡ true
      → is_empty_text f.keys_x ≡ false
      → ((length (split f.keys_x) == n) || (length (split f.keys_y) == n)) ≡ true
      → do_main k c f ≡ (
          pubs_from k c n (split f.keys_x) (split f.keys_y) >>= λ pubs.
          some (info_from_pubs k pubs n s))
  unfolding do_main
  points_run absent given counted =
      let n' : pos_part f.n_keys ≡ n = ap pos_part n_keys in
      let s' : pos_part f.n_sigs ≡ s = ap pos_part n_sigs in
      let apart : (not (length (split f.keys_x) == n) && not (length (split f.keys_y) == n))
          ≡ false =
        ground (arith, counted) in
      rw (numbers_fine, n', s', absent, given, apart) refl

  do_main-texts :
      IsCompressed k
      → (keys : List Pub) → length keys ≡ n
      → f.keys ≡ join (map (hex_key k) keys)
      → do_main k c f ≡ some (finished (create_multisig k keys s))
  do_main-texts h keys size texts =
      let counted : length (map (hex_key k) keys) ≡ n = length-map (hex_key k) keys ∙ size in
      let parts : split f.keys ≡ map (hex_key k) keys =
        ap split texts
        ∙ split-join_all (map (hex_key k) keys) (omega (arith, counted))
            (hex_keys-HaveNoComma k h keys) in
      let given : is_empty_text f.keys ≡ false =
        ap is_empty_text texts ∙ not_empty k h keys (omega (arith, size)) in
      let made = info_from_pubs-create k h keys s in
      keys_run given (ap length parts ∙ counted) ∙ rw (parts, sym size) (ap some made)

  do_main-coordinates :
      IsCompressed k
      → (points : List (List ℕ × List ℕ)) → length points ≡ n
      → f.keys ≡ []
      → f.keys_x ≡ join (map (λ p. p.0) points)
      → f.keys_y ≡ join (map (λ p. p.1) points)
      → is_empty_text f.keys_x ≡ false
      → HaveNoComma (map (λ p. p.0) points)
      → HaveNoComma (map (λ p. p.1) points)
      → do_main k c f ≡ some (finished (create_multisig k (map (point k c) points) s))
  do_main-coordinates h points size none_given xs ys given plain_x plain_y =
      let x_size : length (map (λ (p : List ℕ × List ℕ). p.0) points) ≡ n =
        length-map _ points ∙ size in
      let y_size : length (map (λ (p : List ℕ × List ℕ). p.1) points) ≡ n =
        length-map _ points ∙ size in
      let x_parts =
        ap split xs ∙ split-join_all (map (λ p. p.0) points) (omega (arith, x_size)) plain_x in
      let y_parts =
        ap split ys ∙ split-join_all (map (λ p. p.1) points) (omega (arith, y_size)) plain_y in
      let read = pubs_from-points k c points in
      let made = info_from_pubs-create k h (map (point k c) points) s in
      let counted : length (map (point k c) points) ≡ n = length-map (point k c) points ∙ size in
      points_run (ap is_empty_text none_given) given (ground (arith, ap length x_parts ∙ x_size))
      ∙ rw (x_parts, y_parts) (rw ((rw size at read), (rw counted at made)) refl)

  -- For 0 < s ≤ n ≤ 15 and n keys, where a compressed key has 33 bytes, the tool finishes with the
  -- address and the script of CreateMultisig for these keys and s signatures, in both ways to give
  -- the keys: in hexadecimal form with commas between them, or by their coordinates, with commas
  -- between them, if the first coordinates are not empty as a whole.
  pub do_main-create_multisig :
      IsCompressed k
      → (keys : List Pub) → length keys ≡ n
      → (f.keys ≡ join (map (hex_key k) keys))
        ⊎ ((points : List (List ℕ × List ℕ)) × (keys ≡ map (point k c) points)
            × (f.keys ≡ [])
            × (f.keys_x ≡ join (map (λ p. p.0) points))
            × (f.keys_y ≡ join (map (λ p. p.1) points))
            × (is_empty_text f.keys_x ≡ false)
            × HaveNoComma (map (λ p. p.0) points)
            × HaveNoComma (map (λ p. p.1) points))
      → do_main k c f ≡ some (finished (create_multisig k keys s))
  do_main-create_multisig h keys size (inl texts) = do_main-texts h keys size texts
  do_main-create_multisig h keys size
        (inr (points, made, absent, xs, ys, given, plain_x, plain_y)) =
      let count : length points ≡ n =
        sym (length-map (point k c) points) ∙ ap length (sym made) ∙ size in
      rw made (do_main-coordinates h points count absent xs ys given plain_x plain_y)

  -- Where 0 < s ≤ n ≤ 15, no keys are given and the first coordinates are not empty as a whole, if
  -- there are n coordinates of one kind and fewer of the other, the tool panics instead of reporting
  -- the numbers.
  do_main-panics :
      f.keys ≡ []
      → is_empty_text f.keys_x ≡ false
      → ((length (split f.keys_x) ≡ n) × (length (split f.keys_y) < n))
        ⊎ ((length (split f.keys_y) ≡ n) × (length (split f.keys_x) < n))
      → do_main k c f ≡ none
  do_main-panics none_given given (inl (full, short)) =
      points_run (ap is_empty_text none_given) given (ground (arith, full))
      ∙ rw (pubs_from-short_y k c n (split f.keys_x) (split f.keys_y) short) refl
  do_main-panics none_given given (inr (full, short)) =
      points_run (ap is_empty_text none_given) given (ground (arith, full))
      ∙ rw (pubs_from-short_x k c n (split f.keys_x) (split f.keys_y) short) refl
