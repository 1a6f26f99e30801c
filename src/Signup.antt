-- ===== src/Signup.antt =====
-- cmd/clientsignuptool/clientsignuptool.go over the database code. What the tool reads from the
-- terminal, the new token, and the parser of public keys of btcec, a third-party package, are
-- arguments.
pub mod Fresh
mod Tests
use mainstay.Prelude.{Bool, true, false, List, [], ◌∷◌, map, String, str_eq, if◌then◌else◌, ℕ}
use mainstay.Prelude.Int.{ℤ, pos, ◌+ℤ◌, ltb_ℤ, wrap32}
use mainstay.Text.{bytes_of}
use mainstay.Hex.{decode_string}
use mainstay.Wire.{Result, ok, err, ◌then_ok◌}
use mainstay.Mongo.{ClientDetails}
use mainstay.Mongo.Db.{Driver, save_client_details, get_client_details}

-- How the tool ends: by `log.Error`, which ends the process, or with the lines that it printed of
-- the clients at the end; each with the database behind it.
pub data Ended (D : Type 0) : Type 0 where
  exited : String → D → Ended D
  finished : ClientDetails → List (ℤ × String × String) → D → Ended D

abbrev pub larger : ℤ → ℤ → ℤ
larger max n = if ltb_ℤ max n then n else max

unfoldable pub max_position : ℤ → List ClientDetails → ℤ
max_position max [] = max
max_position max (client ∷ clients) = max_position (larger max client.client_position) clients

-- The position behind the largest, an `int32`.
unfoldable pub next_position : List ClientDetails → ℤ
unfolding max_position
next_position [] = pos 0
next_position (client ∷ clients) = wrap32 (max_position (pos 0) (client ∷ clients) +ℤ pos 1)

abbrev pub printed : ClientDetails → ℤ × String × String
printed client = (client.client_position, client.pubkey, client.client_name)

-- `log.Error` on an error.
abbrev or_exit : {A D : Type 0} → Result A → D → (A → Ended D) → Ended D
or_exit (err e) d rest = exited e d
or_exit (ok a) d rest = rest a

-- The key is optional, and only checked; `e` is the text of an error of hex.DecodeString.
unfoldable pub check_pubkey : String → (List ℕ → Result (Unit {0})) → String → Result (Unit {0})
check_pubkey e parse_pub_key pubkey =
    if str_eq pubkey "" then ok tt else checked (decode_string (bytes_of pubkey))
  where
    checked : List ℕ × Bool → Result (Unit {0})
    checked (bytes, false) = err e
    checked (bytes, true) = parse_pub_key bytes

-- `e` is the text of an error of a decoder.
module _ {D : Type 0} (m : Driver D) (e : String) where
  -- The lines printed.
  unfoldable pub print_client_details : D → Result (List (ℤ × String × String))
  print_client_details d = get_client_details m e d then_ok λ details. ok (map printed details)

  unfoldable pub client_position : D → Result ℤ
  unfolding next_position
  client_position d = get_client_details m e d then_ok λ details. ok (next_position details)

  -- `main`, behind the connection to the database.
  unfoldable pub sign_up :
      (List ℕ → Result (Unit {0})) → (pubkey uuid client_name : String) → D → Ended D
  unfolding print_client_details client_position check_pubkey
  sign_up parse_pub_key pubkey uuid client_name d = or_exit (print_client_details d) d λ _.
      or_exit (client_position d) d λ next_client_position.
        or_exit (check_pubkey e parse_pub_key pubkey) d λ _.
          let new_client_details : ClientDetails = record {
            client_position = next_client_position;
            auth_token = uuid;
            pubkey = pubkey;
            client_name = client_name;
          } in
          or_exit (save_client_details m new_client_details d) d
            λ d'. or_exit (print_client_details d') d' λ lines. finished new_client_details lines d'
