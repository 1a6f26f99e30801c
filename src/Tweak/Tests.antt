-- ===== src/Tweak/Tests.antt =====
-- Runs of the key tweaking, and its theorems at concrete inputs. The group is that of the
-- numbers below 97.
use mainstay.Prelude.{
  ℕ, ◌+◌, ◌%◌, ◌≡◌, refl, arith, true, List, [], ◌∷◌, ◌++◌, String, length, replicate, some, ◌==◌,
  if◌then◌else◌,
}
use mainstay.Wire.{ok, err}
use mainstay.Tweak.{
  Curve, Wif, tweak_priv_key, tweak_pub_key, tweak_extended_key, is_addr_tweaked_from_hash,
}
use mainstay.Tweak.Homomorphic.{IsGroup, tweak_pub_key-tweak_priv_key}

abbrev digits : ℕ → String
digits n = if n == 7 then "seven" else "other"

abbrev small_curve : Curve ℕ ℕ
small_curve = record {
  order = 97;
  point = λ d. d % 97;
  add = λ a b. (a + b) % 97;
  serialize_compressed = λ p. p ∷ [];
  new_wif = λ d compressed. ok (record { priv_key = d; compress_pub_key = compressed });
  decode_wif = λ s. err "malformed private key";
  new_address_pub_key_hash = λ bytes. ok (length bytes);
  hash160 = λ bytes. bytes;
  address_string = digits;
}

small_curve-IsGroup : IsGroup small_curve
small_curve-IsGroup = record { point_add = λ a b. omega arith; point_mod = λ a. omega arith }

abbrev tweak : List ℕ
tweak = 1 ∷ 2 ∷ (replicate 29 0 ++ 3 ∷ [])

abbrev wif : Wif
wif = record { priv_key = 40; compress_pub_key = true }

-- 40 + 258 + 3, modulo 97.
tweaked : tweak_priv_key small_curve wif tweak ≡ ok (record wif { priv_key = 10 })
unfolding tweak_priv_key
tweaked = refl

-- The bytes 1, 2 in another child give the same private key.
tweaked_moved :
    tweak_priv_key small_curve wif (replicate 2 0 ++ 1 ∷ 2 ∷ (replicate 27 0 ++ 3 ∷ []))
    ≡ tweak_priv_key small_curve wif tweak
unfolding tweak_priv_key
tweaked_moved = refl

-- A key that is the list of its indices.
derived :
    tweak_extended_key {Key = List ℕ} (λ key i. ok (i ∷ key)) [] tweak
    ≡ ok (3 ∷ (replicate 14 0 ++ 258 ∷ []))
unfolding tweak_extended_key
derived = refl

checked : is_addr_tweaked_from_hash small_curve "other" tweak wif ≡ some true
unfolding is_addr_tweaked_from_hash
checked = refl

tweak_pub_key-tweak_priv_key_example :
    (tweaked_wif : Wif) × (tweak_priv_key small_curve wif tweak ≡ ok tweaked_wif)
    × (tweaked_wif.priv_key % 97 ≡ tweak_pub_key small_curve 40 tweak)
    × (tweaked_wif.compress_pub_key ≡ true)
tweak_pub_key-tweak_priv_key_example =
    tweak_pub_key-tweak_priv_key small_curve small_curve-IsGroup wif tweak (λ d compressed. refl)
