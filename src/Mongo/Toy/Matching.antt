-- ===== src/Mongo/Toy/Matching.antt =====
-- The driver of Mongo/Toy compares the fields of a filter as is documented.
use mathlib.Core.Option
use mathlib.Core.Option.{none-ne-some, some-injective}
use package.text.Mathlib.TextEquality.{eq_iff}
use mainstay.Prelude.{◌≡◌, ◌↔◌, true, Option, none, some, [], ◌∷◌, String, arith}
use mainstay.Prelude.Int.{ℤ, pos, negsuc}
use mainstay.Config.{lookup}
use mainstay.Mongo.{Bson, text, int32, int64, boolean, date, ops, other, Doc}
use mainstay.Mongo.Documented.{Matches, comparable}
use mainstay.Mongo.Toy.{same_ℤ, has_number, has_text, is_supported, matches}

has_text_iff :
    (s : String) (v : Option Bson)
    → (has_text s v ≡ true) ↔ (Option.map comparable v ≡ some (text s))
has_text_iff s none = ground arith
has_text_iff s (some (text t)) = ground (arith, eq_iff t s)
has_text_iff s (some (int32 n)) = ground arith
has_text_iff s (some (int64 n)) = ground arith
has_text_iff s (some (boolean b)) = ground arith
has_text_iff s (some (date n)) = ground arith
has_text_iff s (some (ops l)) = ground arith
has_text_iff s (some other) = ground arith

same_ℤ_iff : (m n : ℤ) → (same_ℤ m n ≡ true) ↔ (m ≡ n)
same_ℤ_iff (pos m) (pos n) = ground arith
same_ℤ_iff (negsuc m) (negsuc n) = ground arith
same_ℤ_iff (pos m) (negsuc n) = ground arith
same_ℤ_iff (negsuc m) (pos n) = ground arith

has_number_iff :
    (m : ℤ) (v : Option Bson) → (has_number m v ≡ true) ↔ (Option.map comparable v ≡ some (int64 m))
has_number_iff m none = ground arith
has_number_iff m (some (text t)) = ground arith
has_number_iff m (some (int32 n)) = ground (arith, same_ℤ_iff n m)
has_number_iff m (some (int64 n)) = ground (arith, same_ℤ_iff n m)
has_number_iff m (some (boolean b)) = ground arith
has_number_iff m (some (date n)) = ground arith
has_number_iff m (some (ops l)) = ground arith
has_number_iff m (some other) = ground arith

pub matches_iff :
    (filter doc : Doc)
    → is_supported filter ≡ true
    → (matches filter doc ≡ true) ↔ Matches filter doc
matches_iff [] doc h = ground arith
matches_iff ((key, text s) ∷ rest) doc h =
    ground (arith, has_text_iff s (lookup key doc), matches_iff rest doc h)
matches_iff ((key, int32 n) ∷ rest) doc h =
    ground (arith, has_number_iff n (lookup key doc), matches_iff rest doc h)
matches_iff ((key, int64 n) ∷ rest) doc h = cc
matches_iff ((key, boolean b) ∷ rest) doc h = cc
matches_iff ((key, date n) ∷ rest) doc h = cc
matches_iff ((key, ops l) ∷ rest) doc h = cc
matches_iff ((key, other) ∷ rest) doc h = cc
