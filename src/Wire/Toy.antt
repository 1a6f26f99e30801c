-- ===== src/Wire/Toy.antt =====
-- A concrete `Wire` for the tests: hashes are numbers, and a transaction hashes to its first
-- output script and size.
use mainstay.Prelude.{
  ℕ, zero, suc, ◌+◌, ◌*◌, [], ◌∷◌, length, String, Option, some, none, if◌then◌else◌, str_eq, ltb,
}
use mainstay.Wire.{Wire, MsgTx}

abbrev toy_string : ℕ → String
toy_string zero = "base"
toy_string (suc zero) = "one"
toy_string (suc (suc zero)) = "two"
toy_string (suc (suc (suc n))) = "many"

abbrev toy_hash : String → Option ℕ
toy_hash s =
    if str_eq s "base"
    then some 0
    else if str_eq s "one"
    then some 1
    else if str_eq s "two"
    then some 2
    else if str_eq s "many"
    then some 39
    else none

abbrev toy_size : MsgTx ℕ → ℕ
toy_size tx = 10 + 41 * length tx.tx_in + 32 * length tx.tx_out

instance abbrev pub toy_wire : Wire ℕ
toy_wire = record {
  hash_string = toy_string;
  hash_of_string = toy_hash;
  tx_hash = λ tx. 100 + length tx.tx_out;
  serialize = λ tx. toy_size tx ∷ [];
  serialize_size = toy_size;
  var_int_size = λ n. if ltb n 253 then 1 else if ltb n 65536 then 3 else 5;
}
