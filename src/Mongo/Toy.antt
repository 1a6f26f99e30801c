-- ===== src/Mongo/Toy.antt =====
-- A driver that does what is documented: a collection is a list of documents. It compares the texts
-- and the numbers of a filter, and fails on a filter with other values.
mod Matching
pub mod Laws
use mathlib.Core.Option
use package.text.Mathlib.TextPositions.{eq_refl}
use mathlib.Core.Option.{none-ne-some, some-injective}
use mathlib.Core.Path.{subst}
use package.text.Mathlib.TextEquality.{eq_iff}
use mainstay.Prelude.{
  ap, sym, ◌∙◌, Bool-cases, ◌≡◌, refl, ◌↔◌, ◌⊎◌, inl, inr, Bool, true, false, ◌&&◌, Option, none,
  some, List, [], ◌∷◌, ◌++◌, String, str_eq, if◌then◌else◌, ◌==◌, length, ◌∈◌, arith,
}
use mainstay.Prelude.Int.{ℤ, pos, negsuc}
use mainstay.Wire.{Result, ok, err, ok-injective}
use mainstay.Config.{lookup}
use mainstay.Mongo.{Bson, text, int32, int64, boolean, date, ops, other, Doc}
use mainstay.Mongo.Db.{Driver, Updated, replaced, inserted, failed, Found, document, no_documents}
use mainstay.Mongo.Documented.{Documented, Matches, Replaces, comparable}

abbrev pub Store : Type 0
Store = String → List Doc

abbrev same_ℤ : ℤ → ℤ → Bool
same_ℤ (pos m) (pos n) = m == n
same_ℤ (negsuc m) (negsuc n) = m == n
same_ℤ (pos m) (negsuc n) = false
same_ℤ (negsuc m) (pos n) = false

abbrev has_number : ℤ → Option Bson → Bool
has_number m (some (int32 n)) = same_ℤ n m
has_number m (some (int64 n)) = same_ℤ n m
has_number m (some value) = false
has_number m none = false

abbrev has_text : String → Option Bson → Bool
has_text s (some (text t)) = str_eq t s
has_text s (some value) = false
has_text s none = false

abbrev is_supported : Doc → Bool
is_supported [] = true
is_supported ((key, text s) ∷ rest) = is_supported rest
is_supported ((key, int32 n) ∷ rest) = is_supported rest
is_supported ((key, value) ∷ rest) = false

abbrev matches : Doc → Doc → Bool
matches [] doc = true
matches ((key, text s) ∷ rest) doc = has_text s (lookup key doc) && matches rest doc
matches ((key, int32 n) ∷ rest) doc = has_number n (lookup key doc) && matches rest doc
matches ((key, value) ∷ rest) doc = false

abbrev select : Doc → List Doc → List Doc
select filter [] = []
select filter (doc ∷ docs) =
    if matches filter doc then doc ∷ select filter docs else select filter docs

-- The first document that matches, with the new fields before its own.
abbrev placed : Bool → Doc → Doc → List Doc → Option (List Doc) → Option (List Doc)
placed true new doc docs rest = some ((new ++ doc) ∷ docs)
placed false new doc docs none = none
placed false new doc docs (some rest) = some (doc ∷ rest)

abbrev replace : Doc → Doc → List Doc → Option (List Doc)
replace filter new [] = none
replace filter new (doc ∷ docs) = placed (matches filter doc) new doc docs (replace filter new docs)

abbrev write : String → List Doc → Store → Store
write collection docs d name = if str_eq name collection then docs else d name

abbrev updated : String → Doc → Option (List Doc) → Store → Updated Store
updated collection doc (some docs) d = replaced (write collection docs d)
updated collection doc none d = inserted (write collection (doc ∷ d collection) d)

abbrev found : Bool → List Doc → Result (List Doc × Option String)
found true docs = ok (docs, none)
found false docs = err "filter"

abbrev first : List Doc → Found
first [] = no_documents
first (doc ∷ _) = document doc

abbrev pub toy_driver : Driver Store
toy_driver = record {
  find_one_and_update = λ collection filter doc d.
      if is_supported filter
      then updated collection doc (replace filter doc (d collection)) d
      else failed "filter";
  find = λ collection filter sort d. found (is_supported filter) (select filter (d collection));
  find_one = λ collection filter sort d. first (select filter (d collection));
  count_documents = λ collection filter d. ok (length (select filter (d collection)));
}
