-- ===== src/MultisigTool/Tests.antt =====
-- Runs of the tool with the keys of Script/Toy.
use mainstay.Prelude.{
  inr, ◌≡◌, refl, arith, some, none, List, [], ◌∷◌, map, Bool, true, false, ℕ, ltb,
}
use mainstay.Prelude.Int.{pos, pos_part, negsuc}
use mainstay.Hex.{encode_to_string, decode_string, decimal}
use mainstay.Text.{bytes_of}
use mainstay.Script.Multisig.{create_multisig}
use mainstay.Script.Toy.{two_keys, two_keys-IsCompressed}
use mainstay.MultisigTool.{
  is_empty_text, pub_from_coordinates, exited, finished, Coordinates, Flags, split, invalid_numbers,
  info_from_pubs, pubs_from, do_main, main,
}
use mainstay.MultisigTool.Script.{HaveNoComma, join, hex_key, point}
use mainstay.MultisigTool.Run.{do_main-create_multisig}

-- A coordinate is its first byte; the key is the one of x < y.
abbrev first_byte : List ℕ → ℕ
first_byte [] = 0
first_byte (b ∷ bs) = b

abbrev coordinates : Coordinates Bool
coordinates = record {
  scan = λ s. (pos (first_byte s), true);
  public_key = λ x y. ltb (pos_part x) (pos_part y);
}

abbrev by_keys : Flags
by_keys = record {
  chain = "testnet";
  n_keys = pos 2;
  n_sigs = pos 1;
  keys_x = [];
  keys_y = [];
  keys = join (map (hex_key two_keys) (true ∷ false ∷ []));
}

abbrev by_points : Flags
by_points = record {
  chain = "";
  n_keys = pos 2;
  n_sigs = pos 2;
  keys_x = bytes_of "1,3";
  keys_y = bytes_of "2,2";
  keys = [];
}

-- Sixteen keys, or more signatures than keys, end the run; also keys whose number is another.
sixteen : do_main two_keys coordinates (record by_keys { n_keys = pos 16 }) ≡ some exited
unfolding do_main invalid_numbers
sixteen = refl

more_sigs : do_main two_keys coordinates (record by_keys { n_sigs = pos 3 }) ≡ some exited
unfolding do_main invalid_numbers
more_sigs = refl

no_sigs : do_main two_keys coordinates (record by_keys { n_sigs = negsuc 0 }) ≡ some exited
unfolding do_main invalid_numbers
no_sigs = refl

three_keys : do_main two_keys coordinates (record by_keys { n_keys = pos 3 }) ≡ some exited
unfolding do_main invalid_numbers split encode_to_string
three_keys = refl

-- Coordinates behind the n-th are dropped.
extra :
    do_main two_keys coordinates (record by_points { keys_y = bytes_of "2,2,9" })
    ≡ some (finished (create_multisig two_keys (true ∷ false ∷ []) 2))
unfolding do_main invalid_numbers split pubs_from info_from_pubs create_multisig encode_to_string
    decode_string decimal
extra = refl

on_testnet : main (λ network. two_keys) coordinates by_keys ≡ do_main two_keys coordinates by_keys
unfolding main
on_testnet = refl

created :
    do_main two_keys coordinates by_keys
    ≡ some (finished (create_multisig two_keys (true ∷ false ∷ []) 1))
unfolding do_main invalid_numbers split info_from_pubs create_multisig encode_to_string
    decode_string decimal
created = refl

-- A missing coordinate of one kind makes the tool panic.
one_short : do_main two_keys coordinates (record by_points { keys_y = bytes_of "2" }) ≡ none
unfolding do_main invalid_numbers split pubs_from
one_short = refl

two_points :
    (points : List (List ℕ × List ℕ)) × (true ∷ false ∷ []
      ≡ map (point two_keys coordinates) points)
    × (by_points.keys ≡ [])
    × (by_points.keys_x ≡ join (map (λ p. p.0) points))
    × (by_points.keys_y ≡ join (map (λ p. p.1) points))
    × (is_empty_text by_points.keys_x ≡ false)
    × HaveNoComma (map (λ p. p.0) points)
    × HaveNoComma (map (λ p. p.1) points)
unfolding pub_from_coordinates
two_points = (
  (49 ∷ [], 50 ∷ []) ∷ (51 ∷ [], 50 ∷ []) ∷ [],
  refl,
  refl,
  refl,
  refl,
  refl,
  omega arith,
  omega arith,
)

do_main-create_multisig_example :
    do_main two_keys coordinates by_points
    ≡ some (finished (create_multisig two_keys (true ∷ false ∷ []) 2))
do_main-create_multisig_example =
    do_main-create_multisig two_keys coordinates by_points 2 2 refl refl (omega arith) (omega arith)
      (omega arith) two_keys-IsCompressed (true ∷ false ∷ []) refl (inr two_points)
