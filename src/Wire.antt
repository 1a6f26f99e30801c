-- ===== src/Wire.antt =====
-- What the program uses of github.com/btcsuite/btcd/wire, btcjson and rpcclient, third-party
-- packages: the fields of their structs that it reads or writes, and the functions it calls.
pub mod Toy
use mainstay.Prelude.{ℕ, ◌≡◌, refl, List, String, Option, none, some}
use mainstay.Prelude.Int.{ℤ}

pub record TxIn (Hash : Type 0) : Type 0 where
  pub previous_hash : Hash
  pub previous_index : ℕ
  pub signature_script : List ℕ
  pub sequence : ℕ

pub record TxOut : Type 0 where
  pub value : ℤ
  pub pk_script : List ℕ

pub record MsgTx (Hash : Type 0) : Type 0 where
  pub tx_in : List (TxIn Hash)
  pub tx_out : List TxOut

-- `amount` is the `int64` that the conversion of the JSON number, times Coin, gives.
pub record ListUnspentResult : Type 0 where
  pub tx_id : String
  pub vout : ℕ
  pub address : String
  pub amount : ℤ

pub record GetTransactionResult : Type 0 where
  pub block_hash : String
  pub time : ℤ

-- `fee` is the `int` that the conversion of the JSON number, times Coin, gives.
pub record GetMempoolEntryResult : Type 0 where
  pub fee : ℤ
  pub time : ℤ

-- A Go pair of a value and an error.
pub data Result {ℓ} (A : Type ℓ) : Type ℓ where
  ok : A → Result A
  err : String → Result A

-- Go's `return` of an error as it is, else the rest.
infixl 5 ◌then_ok◌
abbrev pub ◌then_ok◌ : {A B : Type 0} → Result A → (A → Result B) → Result B
err e then_ok rest = err e
ok a then_ok rest = rest a

pub ok-injective : {A : Type 0} (a b : A) → ok a ≡ ok b → a ≡ b
ok-injective a b h = cc

pub then_ok-ok :
    {A B : Type 0} (r : Result A) (rest : A → Result B) (b : B)
    → (r then_ok rest) ≡ ok b
    → (a : A) × (r ≡ ok a) × (rest a ≡ ok b)
then_ok-ok (ok a) rest b h = (a, refl, h)
then_ok-ok (err e) rest b h = let wrong : ⊥ = cc in absurd wrong

-- The same for a function that may panic.
infixl 5 ◌or_return◌
abbrev pub ◌or_return◌ :
    {A B : Type 0} → Option (Result A) → (A → Option (Result B)) → Option (Result B)
none or_return rest = none
some (err e) or_return rest = some (err e)
some (ok a) or_return rest = rest a

-- `hash_string` is the method `String` of a hash, `hash_of_string` the function NewHashFromStr
-- (`none` for an error, where the pointer it returns is nil), `var_int_size` the function
-- VarIntSerializeSize.
pub record Wire (Hash : Type 0) : Type 0 where
  pub hash_string : Hash → String
  pub hash_of_string : String → Option Hash
  pub tx_hash : MsgTx Hash → Hash
  pub serialize : MsgTx Hash → List ℕ
  pub serialize_size : MsgTx Hash → ℕ
  pub var_int_size : ℕ → ℕ
