-- ===== src/Signup/Tests.antt =====
-- Runs of the tool over the driver of Mongo/Toy.
use mainstay.Prelude.{◌≡◌, refl, ℕ, List, [], ◌∷◌, str_eq, if◌then◌else◌}
use mainstay.Prelude.Int.{pos, negsuc, ◌+ℤ◌, wrap32}
use mainstay.Hex.{decode_string}
use mainstay.Wire.{Result, ok}
use mainstay.Mongo.{ClientDetails, Doc, text, int32}
use mainstay.Mongo.Db.{get_client_details}
use mainstay.Mongo.Toy.{Store, toy_driver}
use mainstay.Signup.{exited, next_position, sign_up}

abbrev old_client : ClientDetails
old_client = record { client_position = pos 3; auth_token = "a"; pubkey = ""; client_name = "old" }

abbrev old_doc : Doc
old_doc =
    ("client_position", int32 (pos 3))
    ∷ ("auth_token", text "a")
    ∷ ("pubkey", text "")
    ∷ ("client_name", text "old")
    ∷ []

abbrev one_client : Store
one_client name = if str_eq name "ClientDetails" then old_doc ∷ [] else []

abbrev any_key : List ℕ → Result (Unit {0})
any_key bytes = ok tt

first_client : next_position [] ≡ pos 0
unfolding next_position
first_client = refl

-- Negative positions count as 0, and the largest `int32` is followed by the smallest.
after_negative : next_position (record old_client { client_position = negsuc 6 } ∷ []) ≡ pos 1
unfolding next_position wrap32 ◌+ℤ◌
after_negative = refl

after_largest :
    next_position (record old_client { client_position = pos 2147483647 } ∷ []) ≡ negsuc 2147483647
unfolding next_position wrap32 ◌+ℤ◌
after_largest = refl

bad_pubkey : sign_up toy_driver "hex" any_key "0g" "b" "new" one_client ≡ exited "hex" one_client
unfolding sign_up get_client_details decode_string
bad_pubkey = refl
