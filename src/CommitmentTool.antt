-- ===== src/CommitmentTool.antt =====
-- cmd/commitmenttool/commitmenttool.go. A text is the list of its bytes. The API of mainstay, the
-- encoding base64 and the keys of btcec are parameters. A run is the list of the requests that it
-- posts, in order, with how it ends.
pub mod Posts
mod Tests
use mainstay.Prelude.{
  ℕ, suc, ◌+◌, Bool, true, false, ◌&&◌, ◌||◌, not, Option, none, some, List, [], ◌∷◌, ◌++◌, String,
  ◌==◌, leb, if◌then◌else◌,
}
use mainstay.Prelude.Int.{ℤ, pos, negsuc}
use mainstay.Text.{bytes_of}
use mainstay.Hex.{encode_to_string, decode_string, decimal}
use mainstay.Wire.{Wire, Result, ok, err}

-- What the API answers: nothing; a status other than 200, as its text; or for the status 200 the body:
-- the text of an error of the decoder, or what the decoded object has under "error".
pub data Answer : Type 0 where
  no_answer : Answer
  status : List ℕ → Answer
  no_json : List ℕ → Answer
  no_error : Answer
  error_text : List ℕ → Answer
  error_other : Answer

-- The URL and the body of a request.
abbrev pub Request : Type 0
Request = List ℕ × List ℕ

-- `exited` is the end of the process by `log.Error` or `log.Errorf`.
pub data Exit : Type 0 where
  exited panicked success : Exit

abbrev pub Run : Type 0
Run = List Request × Exit

-- `encode64` and `decode64` are those of base64.StdEncoding; `sign_with` is PrivKeyFromBytes with
-- Sign and Serialize behind it; `generate` is NewPrivateKey, as the bytes of the key and of its
-- public key; `new_hash` is NewHash of chainhash.
pub record Outside : Type 0 where
  pub encode64 : List ℕ → List ℕ
  pub decode64 : List ℕ → Result (List ℕ)
  pub sign_with : List ℕ → List ℕ → Result (List ℕ)
  pub generate : Result (List ℕ × List ℕ)
  pub new_hash : List ℕ → Result (Unit {0})

pub record Settings : Type 0 where
  pub api_host : List ℕ
  pub position : ℤ
  pub authtoken : List ℕ
  pub privkey : List ℕ

-- `fmt.Sprintf("%d", n)`
abbrev pub signed_decimal : ℤ → List ℕ
signed_decimal (pos n) = decimal n
signed_decimal (negsuc n) = 45 ∷ decimal (suc n)

abbrev pub is_empty_text : List ℕ → Bool
is_empty_text [] = true
is_empty_text (c ∷ s) = false

abbrev pub same_text : List ℕ → List ℕ → Bool
same_text [] [] = true
same_text [] (d ∷ t) = false
same_text (c ∷ s) [] = false
same_text (c ∷ s) (d ∷ t) = c == d && same_text s t

-- `strings.ToLower`, as far as it can give one of the words that the tool asks for: the letter of
-- the bytes 196 and 176 becomes an i.
abbrev pub to_lower : List ℕ → List ℕ
to_lower [] = []
to_lower (c ∷ []) = (if leb 65 c && leb c 90 then c + 32 else c) ∷ []
to_lower (c ∷ d ∷ s) =
    let rest = to_lower (d ∷ s) in
    let behind = to_lower s in
    if c == 196 && d == 176
    then 105 ∷ behind
    else (if leb 65 c && leb c 90 then c + 32 else c) ∷ rest

-- What `send` makes of an answer: the text of its error, if there is one, or a panic.
abbrev pub sent : Answer → Option (Option (List ℕ))
sent no_answer = none
sent (status text) = some (some (bytes_of "Response status " ++ text))
sent (no_json e) = some (some e)
sent no_error = some none
sent (error_text e) = some (some e)
sent error_other = none

abbrev pub ended : Option (Option (List ℕ)) → Exit
ended none = panicked
ended (some (some e)) = exited
ended (some none) = success

abbrev pub with_sig : Option (List ℕ) → (List ℕ → Run) → Run
with_sig none next = ([], exited)
with_sig (some sig) next = next sig

-- A round and the rounds behind it.
abbrev pub go_on : Run → Run → Run
go_on (posts, exited) rest = (posts, exited)
go_on (posts, panicked) rest = (posts, panicked)
go_on (posts, success) rest = (posts ++ rest.0, rest.1)

unfoldable pub payload : Settings → List ℕ → List ℕ
payload v msg =
    bytes_of "{\"commitment\": \""
    ++ (msg
        ++ (bytes_of "\", \"position\": "
            ++ (signed_decimal v.position
                ++ (bytes_of ", \"token\": \"" ++ (v.authtoken ++ bytes_of "\"}")))))

module _ (o : Outside) where
  unfoldable pub request : Settings → List ℕ → List ℕ → Request
  unfolding payload
  request v sig msg = (
    v.api_host ++ bytes_of "/api/v1/commitment/send",
    bytes_of "{\"X-MAINSTAY-PAYLOAD\": \""
        ++ (o.encode64 (payload v msg)
            ++ (bytes_of "\", \"X-MAINSTAY-SIGNATURE\": \"" ++ (o.encode64 sig ++ bytes_of "\"}"))),
  )

  -- `send`, and `log.Errorf` on its error; every way posts the request.
  unfoldable pub send_or_exit : (Request → Answer) → Settings → List ℕ → List ℕ → Run
  send_or_exit api v sig msg = (request v sig msg ∷ [], ended (sent (api (request v sig msg))))

  -- `none` is the end of the process by `log.Errorf`.
  unfoldable pub sign : List ℕ → List ℕ → Option (List ℕ)
  sign privkey msg = decoded (decode_string privkey)
    where
      signature : Result (List ℕ) → Option (List ℕ)
      signature (ok sig) = some sig
      signature (err e) = none

      decoded : List ℕ × Bool → Option (List ℕ)
      decoded (bytes, false) = none
      decoded (bytes, true) = signature (o.sign_with bytes msg)

  -- The lines printed: the keys in hexadecimal form.
  unfoldable pub do_init_mode : Option (List ℕ × List ℕ)
  do_init_mode = generated o.generate
    where
      generated : Result (List ℕ × List ℕ) → Option (List ℕ × List ℕ)
      generated (ok (priv, pubkey)) = some (encode_to_string priv, encode_to_string pubkey)
      generated (err e) = none

  module _ {Hash : Type 0} (w : Wire Hash) where
    -- One round: the next blockhash, which `none` does not give, is signed if there is a key, and
    -- sent.
    unfoldable pub ocean_round : (Request → Answer) → Result Hash → Settings → Run
    unfolding send_or_exit sign
    ocean_round api (err e) v = ([], exited)
    ocean_round api (ok blockhash) v =
        let rev_block_hash_bytes = (decode_string (bytes_of (w.hash_string blockhash))).0 in
        with_sig
          (if not (is_empty_text v.privkey) then sign v.privkey rev_block_hash_bytes else some [])
          λ sig. send_or_exit api v sig (encode_to_string rev_block_hash_bytes)

    -- The rounds of the loop, one for each pair of answers; between them the tool sleeps.
    unfoldable pub do_ocean_mode : List ((Request → Answer) × Result Hash) → Settings → Run
    unfolding ocean_round
    do_ocean_mode [] v = ([], success)
    do_ocean_mode ((api, best) ∷ rounds) v = go_on (ocean_round api best v) (do_ocean_mode rounds v)

-- What the variables hold that are typed in the standard mode; what cannot be read leaves the key,
-- the position and the token of the flags.
pub record Typed : Type 0 where
  pub commitment : List ℕ
  pub what_to_do : List ℕ
  pub signature : List ℕ
  pub privkey : List ℕ
  pub position : ℤ
  pub authtoken : List ℕ

abbrev pub is_word : String → Typed → Bool
is_word word t = same_text (to_lower t.what_to_do) (bytes_of word)

module _ (o : Outside) where
  -- Whether the commitment is the hexadecimal form of a hash.
  unfoldable pub is_commitment : List ℕ → Bool
  is_commitment commitment = hashed (decode_string commitment)
    where
      fine : Result (Unit {0}) → Bool
      fine (ok _) = true
      fine (err e) = false

      hashed : List ℕ × Bool → Bool
      hashed (bytes, false) = false
      hashed (bytes, true) = fine (o.new_hash bytes)

  abbrev read_signature : Result (List ℕ) → Option (List ℕ)
  read_signature (ok sig) = some sig
  read_signature (err e) = none

  -- The signature that is typed or made; `none` ends the process.
  unfoldable pub signature_for : Typed → Option (List ℕ)
  unfolding sign
  signature_for t =
      if is_word "send" t
      then (if is_empty_text t.signature then some [] else read_signature (o.decode64 t.signature))
      else if is_word "sign" t || is_word "both" t
      then (if is_empty_text t.privkey
          then some []
          else sign o t.privkey (decode_string t.commitment).0)
      else none

  unfoldable pub do_standard_mode : (Request → Answer) → List ℕ → Typed → Run
  unfolding signature_for send_or_exit is_commitment
  do_standard_mode api api_host t =
      if not (is_commitment t.commitment)
      then ([], exited)
      else with_sig (signature_for t) λ sig.
        if is_word "send" t || is_word "both" t
        then send_or_exit o api
            (record {
              api_host = api_host;
              position = t.position;
              authtoken = t.authtoken;
              privkey = t.privkey;
            })
            sig t.commitment
        else ([], success)

abbrev init_run : Option (List ℕ × List ℕ) → Run
init_run none = ([], exited)
init_run (some keys) = ([], success)

-- `main`, with the runs of the modes.
unfoldable pub main : Outside → (is_init is_ocean : Bool) → (ocean standard : Run) → Run
unfolding do_init_mode
main o is_init is_ocean ocean standard =
    if is_init then init_run (do_init_mode o) else if is_ocean then ocean else standard
