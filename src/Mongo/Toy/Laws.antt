-- ===== src/Mongo/Toy/Laws.antt =====
-- The driver of Mongo/Toy does what is documented.
use mathlib.Core.Option.{none-ne-some, some-injective}
use mathlib.Core.Path.{subst}
use mathlib.Core.List.{append-nil}
use package.text.Mathlib.TextPositions.{eq_refl}
use mainstay.Prelude.{
  ap, sym, ◌∙◌, Bool-cases, ◌≡◌, refl, ◌↔◌, ◌⊎◌, inl, inr, Bool, true, false, Option, none, some,
  List, [], ◌∷◌, ◌++◌, String, if◌then◌else◌, ◌∈◌, arith,
}
use mainstay.Wire.{ok, ok-injective}
use mainstay.Mongo.{text, Doc}
use mainstay.Mongo.Db.{picked, upsert, replaced, inserted, failed}
use mainstay.Mongo.Documented.{Documented, Matches, Replaces}
use mainstay.Mongo.Toy.Matching.{matches_iff}
use mainstay.Mongo.Toy.{
  Store, is_supported, matches, select, placed, replace, write, updated, found, toy_driver,
}

not-true : ¬ false ≡ true
not-true h = cc

module _ (filter : Doc) (supported : is_supported filter ≡ true) where
  select-Mem :
      (docs : List Doc) (doc : Doc)
      → (doc ∈ select filter docs) ↔ ((doc ∈ docs) × Matches filter doc)
  select-Mem [] doc = ground arith
  select-Mem (x ∷ docs) doc =
      let ih = select-Mem docs doc in
      let same = matches_iff filter x supported in
      elim (Bool-cases (matches filter x)) [
        | inl e ↦ rw e (
            let match = same.0 e in
            let back = λ (h : doc ≡ x). subst (Matches filter) (sym h) match in
            ground (arith, ih, back))
        | inr e ↦ rw e (
            let ne = λ (h : doc ≡ x) (match : Matches filter doc).
              not-true (sym e ∙ same.1 (subst (Matches filter) h match)) in
            ground (arith, ih, ne))
      ]

  placed-Replaces :
      (new x : Doc) (docs docs' : List Doc) (b : Bool) (r : Option (List Doc))
      → (b ≡ true → Matches filter x)
      → ((rest : List Doc)
          → r ≡ some rest
          → (old : Doc) × Matches filter old × Replaces old (new ++ old) docs rest)
      → placed b new x docs r ≡ some docs'
      → (old : Doc) × Matches filter old × Replaces old (new ++ old) (x ∷ docs) docs'
  placed-Replaces new x docs docs' true r here there h = (
    x,
    here refl,
    subst (Replaces x (new ++ x) (x ∷ docs)) (some-injective _ _ h) (inl (refl, refl, refl)),
  )
  placed-Replaces new x docs docs' false none here there h = absurd (none-ne-some _ h)
  placed-Replaces new x docs docs' false (some rest) here there h =
      let (old, match, r) = there rest refl in
      (
        old,
        match,
        subst (Replaces old (new ++ old) (x ∷ docs)) (some-injective _ _ h) (inr (refl, r)),
      )

  replace-Replaces :
      (new : Doc) (docs docs' : List Doc)
      → replace filter new docs ≡ some docs'
      → (old : Doc) × Matches filter old × Replaces old (new ++ old) docs docs'
  replace-Replaces new [] docs' h = absurd (none-ne-some _ h)
  replace-Replaces new (x ∷ docs) docs' h =
      placed-Replaces new x docs docs' (matches filter x) (replace filter new docs)
        (matches_iff filter x supported).0 (replace-Replaces new docs) h

  placed-none :
      (new x : Doc) (docs : List Doc) (b : Bool) (r : Option (List Doc))
      → placed b new x docs r ≡ none
      → (b ≡ false) × (r ≡ none)
  placed-none new x docs true r h = absurd (none-ne-some _ (sym h))
  placed-none new x docs false none h = (refl, refl)
  placed-none new x docs false (some rest) h = absurd (none-ne-some _ (sym h))

  replace-none :
      (new : Doc) (docs : List Doc)
      → replace filter new docs ≡ none
      → (old : Doc) → old ∈ docs
      → ¬ Matches filter old
  replace-none new [] h old m = absurd m
  replace-none new (x ∷ docs) h old m =
      let (apart, e) = placed-none new x docs (matches filter x) (replace filter new docs) h in
      elim m [
        | inl same ↦ λ match.
            not-true
              (sym apart ∙ (matches_iff filter x supported).1 (subst (Matches filter) same match))
        | inr m' ↦ replace-none new docs e old m'
      ]

write-same :
    (collection : String) (docs : List Doc) (d : Store) → write collection docs d collection ≡ docs
write-same collection docs d = ground (arith, eq_refl collection)

module _ (collection : String) (doc : Doc) (d d' : Store) (e : String) where
  updated-replaced :
      (b : Bool) (r : Option (List Doc))
      → (if b then updated collection doc r d else failed e) ≡ replaced d'
      → (b ≡ true) × (docs : List Doc) × (r ≡ some docs) × (d' ≡ write collection docs d)
  updated-replaced false r h = ground arith
  updated-replaced true none h = ground arith
  updated-replaced true (some docs) h = (refl, docs, refl, cc)

  updated-inserted :
      (b : Bool) (r : Option (List Doc))
      → (if b then updated collection doc r d else failed e) ≡ inserted d'
      → (b ≡ true) × (r ≡ none) × (d' ≡ write collection (doc ∷ d collection) d)
  updated-inserted false r h = ground arith
  updated-inserted true none h = (refl, refl, cc)
  updated-inserted true (some docs) h = ground arith

found-ok :
    (b : Bool) (docs docs' : List Doc)
    → found b docs ≡ ok (docs', none)
    → (b ≡ true) × (docs' ≡ docs)
found-ok false docs docs' h = let wrong : ⊥ = cc in absurd wrong
found-ok true docs docs' h =
    (refl, sym (ap (λ (p : List Doc × Option String). p.0) (ok-injective _ _ h)))

pub toy-find :
    (filter : Doc) (d : List Doc) (docs : List Doc)
    → found (is_supported filter) (select filter d) ≡ ok (docs, none)
    → (doc : Doc) → (doc ∈ docs) ↔ ((doc ∈ d) × Matches filter doc)
toy-find filter d docs h doc =
    let (supported, e) = found-ok (is_supported filter) (select filter d) docs h in
    rw e (select-Mem filter supported d doc)

pub toy-replaced :
    (collection : String) (filter doc : Doc) (d d' : Store)
    → toy_driver.find_one_and_update collection filter doc d ≡ replaced d'
    → (old : Doc) × Matches filter old × Replaces old (doc ++ old) (d collection) (d' collection)
toy-replaced collection filter doc d d' h =
    let (supported, docs, e, e') =
      updated-replaced collection doc d d' "filter" (is_supported filter)
        (replace filter doc (d collection)) h in
    let (old, match, r) = replace-Replaces filter supported doc (d collection) docs e in
    (
      old,
      match,
      subst (Replaces old (doc ++ old) (d collection))
          (sym (ap (λ (x : Store). x collection) e' ∙ write-same collection docs d)) r,
    )

pub toy-inserted :
    (collection : String) (filter doc : Doc) (d d' : Store)
    → toy_driver.find_one_and_update collection filter doc d ≡ inserted d'
    → ((old : Doc) → old ∈ d collection → ¬ Matches filter old)
      × (others : Doc) × (d' collection ≡ (doc ++ others) ∷ d collection)
toy-inserted collection filter doc d d' h =
    let (supported, e, e') =
      updated-inserted collection doc d d' "filter" (is_supported filter)
        (replace filter doc (d collection)) h in
    (
      replace-none filter supported doc (d collection) e,
      [],
      rw append-nil (ap (λ (x : Store). x collection) e' ∙ write-same collection _ d),
    )

abbrev pub toy_documented : Documented toy_driver
toy_documented = record {
  documents = λ collection d. d collection;
  find_documents = λ collection filter sort d docs h doc. toy-find filter (d collection) docs h doc;
  update_replaced = toy-replaced;
  update_inserted = toy-inserted;
}

-- A save, looked up by fields that can be compared, gets no error.
saved_or_inserted :
    (collection : String) (doc : Doc) (d : Store) (r : Option (List Doc))
    → ((d1 : Store) × (updated collection doc r d ≡ replaced d1))
      ⊎ ((d1 : Store) × (updated collection doc r d ≡ inserted d1))
saved_or_inserted collection doc d none = inr (_, refl)
saved_or_inserted collection doc d (some docs) = inl (_, refl)

pub toy-upsert :
    (message collection : String) (keys : List String) (doc : Doc) (d : Store)
    → is_supported (picked keys doc) ≡ true
    → (d1 : Store) × (upsert toy_driver message collection keys doc d ≡ ok d1)
unfolding upsert
toy-upsert message collection keys doc d supported =
    elim (saved_or_inserted collection doc d (replace (picked keys doc) doc (d collection))) [
      | inl (d1, e) ↦ (d1, rw (supported, e) refl)
      | inr (d1, e) ↦ (d1, rw (supported, e) refl)
    ]
