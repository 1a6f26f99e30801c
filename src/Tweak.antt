-- ===== src/Tweak.antt =====
-- crypto/tweaking.go: keys tweaked by a hash. A byte is a number below 256; a private key stands
-- in by its number, an affine point of the curve by a `Point`.
pub mod Path
pub mod Homomorphic
mod Tests
use mainstay.Prelude.{
  ℕ, zero, suc, ◌+◌, ◌*◌, ◌%◌, Bool, Option, none, some, List, [], ◌∷◌, String, ◌==◌, str_eq,
  if◌then◌else◌, length, get_elem?, replicate,
}
use mainstay.Prelude.Panic.{◌>>=◌, maybe}
use mainstay.Wire.{Result, ok, err}

abbrev derivation_path_size : ℕ
derivation_path_size = 16

abbrev pub derivation_path_child_size : ℕ
derivation_path_child_size = 2

abbrev pub derivation_size : ℕ
derivation_size = derivation_path_size * derivation_path_child_size

-- `[2]byte`
abbrev pub Child : Type 0
Child = ℕ × ℕ

-- The byte at an index that the caller has checked.
abbrev pub byte_at : List ℕ → ℕ → ℕ
byte_at tweak i = maybe (get_elem? tweak i) 0 (λ b. b)

-- The rounds that are left, from the one with index `it`.
unfoldable pub path_from : ℕ → ℕ → List ℕ → List Child
path_from zero it tweak = []
path_from (suc rounds) it tweak =
    let start = it * derivation_path_child_size in
    (byte_at tweak start, byte_at tweak (start + 1)) ∷ path_from rounds (it + 1) tweak

unfoldable pub get_derivation_path_from_tweak : List ℕ → List Child
unfolding path_from
get_derivation_path_from_tweak tweak =
    let path = path_from derivation_path_size 0 tweak in
    if length tweak == derivation_size then path else replicate derivation_path_size (0, 0)

-- `SetBytes` of the two bytes.
abbrev pub child_value : Child → ℕ
child_value (hi, lo) = hi * 256 + lo

abbrev pub tweak_val_with_path_child : Child → ℕ → ℕ
tweak_val_with_path_child child val = val + child_value child

-- `btcutil.WIF`
pub record Wif : Type 0 where
  pub priv_key : ℕ
  pub compress_pub_key : Bool

-- What the code takes from btcec and btcutil: the order N of the curve, the point of a number
-- (PrivKeyFromBytes), the addition of points, SerializeCompressed, NewWIF for the configured
-- chain, DecodeWIF, and the address for the Hash160 of bytes, with its method String.
pub record Curve (Point Address : Type 0) : Type 0 where
  pub order : ℕ
  pub point : ℕ → Point
  pub add : Point → Point → Point
  pub serialize_compressed : Point → List ℕ
  pub new_wif : ℕ → Bool → Result Wif
  pub decode_wif : String → Result Wif
  pub new_address_pub_key_hash : List ℕ → Result Address
  pub hash160 : List ℕ → List ℕ
  pub address_string : Address → String

-- The loop over the path.
unfoldable pub tweak_val : ℕ → List Child → ℕ → ℕ
tweak_val n [] val = val
tweak_val n (child ∷ path) val = tweak_val n path (tweak_val_with_path_child child val % n)

module _ {Point Address : Type 0} (c : Curve Point Address) where
  unfoldable pub get_wallet_priv_key : String → Result Wif
  get_wallet_priv_key priv_key = c.decode_wif priv_key

  unfoldable pub tweak_priv_key : Wif → List ℕ → Result Wif
  unfolding tweak_val get_derivation_path_from_tweak
  tweak_priv_key wif tweak =
      c.new_wif (tweak_val c.order (get_derivation_path_from_tweak tweak) wif.priv_key)
        wif.compress_pub_key

  unfoldable pub tweak_pub_with_path_child : Child → Point → Point
  tweak_pub_with_path_child child pub_key = c.add pub_key (c.point (child_value child))

  unfoldable pub tweak_points : List Child → Point → Point
  unfolding tweak_pub_with_path_child
  tweak_points [] pub_key = pub_key
  tweak_points (child ∷ path) pub_key = tweak_points path (tweak_pub_with_path_child child pub_key)

  unfoldable pub tweak_pub_key : Point → List ℕ → Point
  unfolding tweak_points get_derivation_path_from_tweak
  tweak_pub_key pub_key tweak = tweak_points (get_derivation_path_from_tweak tweak) pub_key

  unfoldable pub get_address_from_pub_key : Point → Result Address
  get_address_from_pub_key pub_key =
      c.new_address_pub_key_hash (c.hash160 (c.serialize_compressed pub_key))

  unfoldable pub get_address_from_priv_key : Wif → Result Address
  unfolding get_address_from_pub_key
  get_address_from_priv_key wif = get_address_from_pub_key (c.point wif.priv_key)

  -- A value whose error is dropped: the pointer is nil.
  abbrev dropped : {A : Type 0} → Result A → Option A
  dropped (ok a) = some a
  dropped (err e) = none

  -- `none` is the panic on a nil key or address.
  unfoldable pub is_addr_tweaked_from_hash : String → List ℕ → Wif → Option Bool
  unfolding tweak_priv_key get_address_from_priv_key
  is_addr_tweaked_from_hash address hash wif = dropped (tweak_priv_key wif hash) >>= λ tweaked_priv.
      dropped (get_address_from_priv_key tweaked_priv) >>= λ tweaked_addr.
      some (str_eq address (c.address_string tweaked_addr))

-- `child` is the method Child of an extended key.
module _ {Key : Type 0} (child : Key → ℕ → Result Key) where
  -- The big-endian number of the bytes 0, 0 and the two of the child.
  abbrev child_int : Child → ℕ
  child_int (hi, lo) = ((0 * 256 + 0) * 256 + hi) * 256 + lo

  abbrev then_derive : Result Key → (Key → Result Key) → Result Key
  then_derive (err e) rest = err e
  then_derive (ok key) rest = rest key

  unfoldable pub derive : List Child → Key → Result Key
  derive [] key = ok key
  derive (path_child ∷ path) key = then_derive (child key (child_int path_child)) (derive path)

  unfoldable pub tweak_extended_key : Key → List ℕ → Result Key
  unfolding derive get_derivation_path_from_tweak
  tweak_extended_key key tweak = derive (get_derivation_path_from_tweak tweak) key
