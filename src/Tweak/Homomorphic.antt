-- ===== src/Tweak/Homomorphic.antt =====
-- Tweaked private keys belong to tweaked public keys.
use mainstay.Prelude.{ℕ, ◌+◌, ◌%◌, ◌≡◌, refl, sym, ap, ◌∙◌, Bool, List, [], ◌∷◌}
use mainstay.Wire.{ok}
use mainstay.Tweak.{
  Child, Curve, Wif, child_value, tweak_val, tweak_points, tweak_priv_key, tweak_pub_key,
  get_derivation_path_from_tweak,
}

-- The points of numbers add like the numbers, and a number is taken modulo the order.
pub record IsGroup {Point Address : Type 0} (c : Curve Point Address) : Type 0 where
  pub point_add : (a b : ℕ) → c.add (c.point a) (c.point b) ≡ c.point (a + b)
  pub point_mod : (a : ℕ) → c.point (a % c.order) ≡ c.point a

module _ {Point Address : Type 0} (c : Curve Point Address) (group : IsGroup c) where
  point-tweak_val :
      (path : List Child) (val : ℕ)
      → c.point (tweak_val c.order path val) ≡ tweak_points c path (c.point val)
  unfolding tweak_val tweak_points
  point-tweak_val [] val = refl
  point-tweak_val (child ∷ path) val =
      let sum = val + child_value child in
      point-tweak_val path (sum % c.order)
      ∙ ap (tweak_points c path)
          (group.point_mod sum ∙ sym (group.point_add val (child_value child)))

  -- If the points of numbers add like the numbers, modulo the order, and NewWIF gives a key,
  -- TweakPrivKey gives, for a tweak of any size, a private key whose public key is what
  -- TweakPubKey makes of the public key, compressed or not as before.
  pub tweak_pub_key-tweak_priv_key :
      (wif : Wif) (tweak : List ℕ)
      → ((d : ℕ) (compressed : Bool)
          → c.new_wif d compressed ≡ ok (record { priv_key = d; compress_pub_key = compressed }))
      → (tweaked : Wif) × (tweak_priv_key c wif tweak ≡ ok tweaked)
        × (c.point tweaked.priv_key ≡ tweak_pub_key c (c.point wif.priv_key) tweak)
        × (tweaked.compress_pub_key ≡ wif.compress_pub_key)
  unfolding tweak_priv_key tweak_pub_key
  tweak_pub_key-tweak_priv_key wif tweak fine =
      let path = get_derivation_path_from_tweak tweak in
      (
        record {
          priv_key = tweak_val c.order path wif.priv_key;
          compress_pub_key = wif.compress_pub_key;
        },
        fine (tweak_val c.order path wif.priv_key) wif.compress_pub_key,
        point-tweak_val path wif.priv_key,
        refl,
      )
