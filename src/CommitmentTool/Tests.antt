-- ===== src/CommitmentTool/Tests.antt =====
-- Runs of the tool with keys of one byte.
use mainstay.Prelude.{◌≡◌, refl, Bool, true, false, ℕ, List, [], ◌∷◌, ◌++◌, none, String}
use mainstay.Prelude.Int.{pos, negsuc}
use mainstay.Text.{bytes_of}
use mainstay.Hex.{encode_to_string, decode_string, decimal}
use mainstay.Wire.{Wire, Result, ok, err}
use mainstay.CommitmentTool.{
  Answer, no_error, status, Request, exited, success, Outside, Settings, Typed, payload, request,
  do_ocean_mode, do_standard_mode, main,
}
use mainstay.CommitmentTool.Posts.{displayed, ArePosts, IsAcceptedRun, do_ocean_mode-ArePosts}

abbrev any_hash : List ℕ → Result (Unit {0})
any_hash (b ∷ []) = ok tt
any_hash bytes = err "size"

abbrev outside : Outside
outside = record {
  encode64 = λ s. s;
  decode64 = λ s. ok s;
  sign_with = λ key msg. ok (key ++ msg);
  generate = ok (1 ∷ [], 2 ∷ []);
  new_hash = any_hash;
}

abbrev settings : Settings
settings = record {
  api_host = bytes_of "h";
  position = negsuc 0;
  authtoken = bytes_of "t";
  privkey = bytes_of "0a";
}

-- Two hashes.
abbrev two_wire : Wire Bool
two_wire = record {
  hash_string = two_string;
  hash_of_string = λ s. none;
  tx_hash = λ tx. true;
  serialize = λ tx. [];
  serialize_size = λ tx. 10;
  var_int_size = λ n. 1;
}
  where
    two_string : Bool → String
    two_string true = "ab"
    two_string false = "cd"

shown :
    payload settings (bytes_of "ab")
    ≡ bytes_of "{\"commitment\": \"ab\", \"position\": -1, \"token\": \"t\"}"
unfolding payload decimal
shown = refl

abbrev typed : Typed
typed = record {
  commitment = bytes_of "ab";
  what_to_do = bytes_of "Both";
  signature = [];
  privkey = bytes_of "0a";
  position = pos 3;
  authtoken = bytes_of "t";
}

abbrev accept : Request → Answer
accept post = no_error

-- The commitment is signed and sent; only signed; or no hexadecimal text.
both_done : do_standard_mode outside accept (bytes_of "h") typed ≡ (
  request outside (record settings { position = pos 3 }) (10 ∷ 171 ∷ []) (bytes_of "ab") ∷ [],
  success,
)
unfolding do_standard_mode decode_string
both_done = refl

only_signed :
    do_standard_mode outside accept (bytes_of "h") (record typed { what_to_do = bytes_of "SIGN" })
    ≡ ([], success)
unfolding do_standard_mode decode_string
only_signed = refl

odd_commitment :
    do_standard_mode outside accept (bytes_of "h") (record typed { commitment = bytes_of "abc" })
    ≡ ([], exited)
unfolding do_standard_mode decode_string
odd_commitment = refl

no_option :
    do_standard_mode outside accept (bytes_of "h") (record typed { what_to_do = bytes_of "bothx" })
    ≡ ([], exited)
unfolding do_standard_mode decode_string
no_option = refl

generated : main outside true false ([], exited) ([], exited) ≡ ([], success)
unfolding main
generated = refl

two_plain :
    (hash : Bool)
    → encode_to_string (displayed two_wire hash) ≡ bytes_of (two_wire.hash_string hash)
unfolding decode_string encode_to_string
two_plain true = refl
two_plain false = refl

-- The second round fails by its answer, which ends the loop.
abbrev refuse : Request → Answer
refuse post = status (bytes_of "500")

abbrev rounds : List ((Request → Answer) × Result Bool)
rounds = (accept, ok true) ∷ (refuse, ok false) ∷ (accept, ok true) ∷ []

do_ocean_mode-ArePosts_example :
    ArePosts outside two_wire settings rounds (do_ocean_mode outside two_wire rounds settings).0
    × IsAcceptedRun outside two_wire settings rounds
        (do_ocean_mode outside two_wire rounds settings).0
        (do_ocean_mode outside two_wire rounds settings).1
do_ocean_mode-ArePosts_example = do_ocean_mode-ArePosts outside two_wire settings two_plain rounds

stopped : (do_ocean_mode outside two_wire rounds settings).1 ≡ exited
unfolding do_ocean_mode decode_string
stopped = refl
