-- ===== src/Mongo/Query.antt =====
-- What a query of a collection gives, when the collection is the table of some values.
use mathlib.Core.Path.{subst}
use mainstay.Prelude.{◌≡◌, refl, sym, ◌∙◌, ◌↔◌, inl, inr, none, List, [], ◌∷◌, ◌++◌, String, ◌∈◌}
use mainstay.Wire.{Result, ok, ok-injective}
use mainstay.Mongo.{Doc}
use mainstay.Mongo.Db.{Driver, decoded}
use mainstay.Mongo.Documented.{Documented, Matches}
use mainstay.Mongo.Table.{Holds}

module _ {A : Type 0} (encode : A → Doc) (decode : Doc → Result A)
    (read : (a : A) (others : Doc) → decode (encode a ++ others) ≡ ok a) where
  document_of :
      (b : A) (docs : List Doc) (bs : List A)
      → Holds encode docs bs
      → b ∈ bs
      → (others : Doc) × (encode b ++ others ∈ docs)
  document_of b [] [] h m = absurd m
  document_of b [] (x ∷ bs) h m = absurd h
  document_of b (doc ∷ docs) [] h m = absurd h
  document_of b (doc ∷ docs) (x ∷ bs) ((others, stored), h) (inl e) =
      (others, inl (rw e (sym stored)))
  document_of b (doc ∷ docs) (x ∷ bs) (first, h) (inr m) =
      let (others, m') = document_of b docs bs h m in (others, inr m')

  value_of :
      (doc : Doc) (docs : List Doc) (bs : List A)
      → Holds encode docs bs
      → doc ∈ docs
      → (b : A) × (b ∈ bs) × (others : Doc) × (doc ≡ encode b ++ others)
  value_of doc [] bs h m = absurd m
  value_of doc (x ∷ docs) [] h m = absurd h
  value_of doc (x ∷ docs) (b ∷ bs) ((others, stored), h) (inl e) = (b, inl refl, others, e ∙ stored)
  value_of doc (x ∷ docs) (b ∷ bs) (first, h) (inr m) =
      let (c, m', others, stored) = value_of doc docs bs h m in (c, inr m', others, stored)

  same_value : (b c : A) (others others' : Doc) → encode b ++ others ≡ encode c ++ others' → b ≡ c
  same_value b c others others' e =
      let r : decode (encode b ++ others) ≡ ok c = rw e (read c others') in
      ok-injective b c (sym (read b others) ∙ r)

  value_of_document :
      (b : A) (others : Doc) (docs : List Doc) (bs : List A)
      → Holds encode docs bs
      → encode b ++ others ∈ docs
      → b ∈ bs
  value_of_document b others docs bs h m =
      let (c, m', others', e) = value_of (encode b ++ others) docs bs h m in
      subst (λ x. x ∈ bs) (sym (same_value b c others others' e)) m'

  module _ {D : Type 0} (m : Driver D) (explain : String → String) (message : String) where
    decoded-Holds :
        (docs all : List Doc) (bs : List A)
        → Holds encode all bs
        → ((doc : Doc) → doc ∈ docs → doc ∈ all)
        → (found : List A) × (decoded m explain message decode docs none ≡ ok found)
          × Holds encode docs found
    unfolding decoded
    decoded-Holds [] all bs h within = ([], refl, tt)
    decoded-Holds (doc ∷ docs) all bs h within =
        let (b, mem, others, stored) = value_of doc all bs h (within doc (inl refl)) in
        let (found, e, h') = decoded-Holds docs all bs h (λ x mx. within x (inr mx)) in
        (
          b ∷ found,
          subst (λ x. decoded m explain message decode (x ∷ docs) none ≡ ok (b ∷ found))
              (sym stored) (rw (read b others, e) refl),
          ((others, stored), h'),
        )

    -- A query without an error is decoded, and gives the values of the table that match.
    pub find-Mem :
        (l : Documented m) (collection sort : String) (filter : Doc) (Picked : A → Type 0)
        → ((b : A) (others : Doc) → Matches filter (encode b ++ others) ↔ Picked b)
        → (d : D) (bs : List A) → Holds encode (l.documents collection d) bs
        → (docs : List Doc) → m.find collection filter sort d ≡ ok (docs, none)
        → (found : List A) × (decoded m explain message decode docs none ≡ ok found)
          × ((b : A) → (b ∈ found) ↔ ((b ∈ bs) × Picked b))
    find-Mem l collection sort filter Picked picks d bs h docs queried =
        let law = l.find_documents collection filter sort d docs queried in
        let (found, e, h') =
          decoded-Holds docs (l.documents collection d) bs h (λ doc mem. ((law doc).0 mem).0) in
        (
          found,
          e,
          λ b. (
            λ mem.
                let (others, m') = document_of b docs found h' mem in
                let (m'', match) = (law (encode b ++ others)).0 m' in
                (value_of_document b others _ bs h m'', (picks b others).0 match),
            λ (mem, picked).
                let (others, m') = document_of b _ bs h mem in
                value_of_document b others docs found h'
                  ((law (encode b ++ others)).1 (m', (picks b others).1 picked)),
          ),
        )
