-- ===== src/Mongo/Documented.antt =====
-- What the driver of the database documents of the calls that db/db_mongo.go makes.
use mainstay.Prelude.{◌≡◌, ◌↔◌, ◌⊎◌, none, some, List, [], ◌∷◌, ◌++◌, String, ◌∈◌}
use mathlib.Core.Option
use mainstay.Wire.{ok}
use mainstay.Config.{lookup}
use mainstay.Mongo.{Bson, int32, int64, Doc}
use mainstay.Mongo.Db.{Driver, replaced, inserted}

-- Numbers of both widths are compared as numbers.
abbrev pub comparable : Bson → Bson
comparable (int32 n) = int64 n
comparable value = value

-- A filter asks for the equality of each of its fields.
abbrev pub Matches : Doc → Doc → Type 0
Matches [] doc = Unit
Matches ((key, value) ∷ rest) doc =
    (Option.map comparable (lookup key doc) ≡ some (comparable value)) × Matches rest doc

-- The second list has `y` at one place where the first has `x`, and is the same elsewhere.
abbrev pub Replaces : {A : Type 0} → A → A → List A → List A → Type 0
Replaces x y [] ws = ⊥
Replaces x y (z ∷ zs) [] = ⊥
Replaces x y (z ∷ zs) (w ∷ ws) = ((z ≡ x) × (w ≡ y) × (ws ≡ zs)) ⊎ ((w ≡ z) × Replaces x y zs ws)

-- `documents` are those of a collection, the last inserted first. A query without an error gives
-- the ones that match. An update by `$set` puts the new fields before the fields that one matching
-- document has; only if none matches, a document with these fields, and others, is inserted.
pub record Documented {D : Type 0} (m : Driver D) : Type 0 where
  pub documents : String → D → List Doc
  pub find_documents :
      (collection : String) (filter : Doc) (sort : String) (d : D) (docs : List Doc)
      → m.find collection filter sort d ≡ ok (docs, none)
      → (doc : Doc) → (doc ∈ docs) ↔ ((doc ∈ documents collection d) × Matches filter doc)
  pub update_replaced :
      (collection : String) (filter doc : Doc) (d d' : D)
      → m.find_one_and_update collection filter doc d ≡ replaced d'
      → (old : Doc) × Matches filter old
        × Replaces old (doc ++ old) (documents collection d) (documents collection d')
  pub update_inserted :
      (collection : String) (filter doc : Doc) (d d' : D)
      → m.find_one_and_update collection filter doc d ≡ inserted d'
      → ((old : Doc) → old ∈ documents collection d → ¬ Matches filter old)
        × (others : Doc) × (documents collection d' ≡ (doc ++ others) ∷ documents collection d)
