-- ===== src/Mongo/Table.antt =====
-- A collection as a table of values: what saves and queries do to it, whatever the values are.
use mathlib.Core.Path.{subst}
use mainstay.Prelude.{
  ◌≡◌, refl, sym, ◌∙◌, ◌≢◌, ◌↔◌, ◌⊎◌, inl, inr, List, [], ◌∷◌, ◌++◌, map, String, ◌∈◌, arith,
}
use mainstay.Wire.{ok, ok-injective, then_ok-ok}
use mainstay.Mongo.{Doc}
use mainstay.Mongo.Db.{Driver, replaced, inserted, picked, upsert, upsert_each}
use mainstay.Mongo.Documented.{Documented, Matches, Replaces}

-- No value of the list has this key.
abbrev pub IsFree : {A K : Type 0} → (A → K) → K → List A → Type 0
IsFree key k [] = Unit
IsFree key k (b ∷ bs) = (key b ≢ k) × IsFree key k bs

abbrev pub IsUnique : {A K : Type 0} → (A → K) → List A → Type 0
IsUnique key [] = Unit
IsUnique key (b ∷ bs) = IsFree key (key b) bs × IsUnique key bs

-- `a` is the last of a list of values with its key.
abbrev pub IsLatest : {A K : Type 0} → (A → K) → A → List A → Type 0
IsLatest key a [] = ⊥
IsLatest key a (x ∷ xs) = IsLatest key a xs ⊎ ((a ≡ x) × IsFree key (key a) xs)

-- The documents are those of these values, in this order.
abbrev pub Holds : {A : Type 0} → (A → Doc) → List Doc → List A → Type 0
Holds encode [] [] = Unit
Holds encode [] (b ∷ bs) = ⊥
Holds encode (doc ∷ docs) [] = ⊥
Holds encode (doc ∷ docs) (b ∷ bs) =
    ((others : Doc) × (doc ≡ encode b ++ others)) × Holds encode docs bs

free_key :
    {A K : Type 0} (key : A → K) (k : K) (b : A) (bs : List A)
    → IsFree key k bs
    → b ∈ bs
    → key b ≢ k
free_key key k b [] free m = absurd m
free_key key k b (x ∷ bs) (ne, free) (inl e) = rw e ne
free_key key k b (x ∷ bs) (ne, free) (inr m) = free_key key k b bs free m

module _ {A K : Type 0} (key : A → K) (a : A) where
  -- The value at one place gives way to one with the same key.
  abbrev Overwrites : List A → List A → Type 0
  Overwrites [] cs = ⊥
  Overwrites (b ∷ bs) [] = ⊥
  Overwrites (b ∷ bs) (c ∷ cs) =
      ((key b ≡ key a) × (c ≡ a) × (cs ≡ bs)) ⊎ ((c ≡ b) × Overwrites bs cs)

  Overwrites-IsFree :
      (k : K) (bs cs : List A) → Overwrites bs cs → IsFree key k bs → IsFree key k cs
  Overwrites-IsFree k [] cs o free = absurd o
  Overwrites-IsFree k (b ∷ bs) [] o free = absurd o
  Overwrites-IsFree k (b ∷ bs) (c ∷ cs) (inl (same, e, e')) free = rw e (rw e' (rw (sym same) free))
  Overwrites-IsFree k (b ∷ bs) (c ∷ cs) (inr (e, o)) (ne, free) =
      (rw e ne, Overwrites-IsFree k bs cs o free)

  Overwrites-IsUnique : (bs cs : List A) → Overwrites bs cs → IsUnique key bs → IsUnique key cs
  Overwrites-IsUnique [] cs o unique = absurd o
  Overwrites-IsUnique (b ∷ bs) [] o unique = absurd o
  Overwrites-IsUnique (b ∷ bs) (c ∷ cs) (inl (same, e, e')) unique =
      rw e (rw e' (rw (sym same) unique))
  Overwrites-IsUnique (b ∷ bs) (c ∷ cs) (inr (e, o)) (free, unique) =
      (rw e (Overwrites-IsFree (key b) bs cs o free), Overwrites-IsUnique bs cs o unique)

  -- A value is in the table afterwards just if it is the new one, or was there with another key.
  abbrev pub Puts : List A → List A → Type 0
  Puts bs cs = (b : A) → (b ∈ cs) ↔ ((b ≡ a) ⊎ ((b ∈ bs) × (key b ≢ key a)))

  Overwrites-key : (k : K) (bs cs : List A) → Overwrites bs cs → IsFree key k bs → k ≢ key a
  Overwrites-key k [] cs o free = absurd o
  Overwrites-key k (b ∷ bs) [] o free = absurd o
  Overwrites-key k (b ∷ bs) (c ∷ cs) (inl (same, e, e')) (ne, free) = λ eq. ne (same ∙ sym eq)
  Overwrites-key k (b ∷ bs) (c ∷ cs) (inr (e, o)) (ne, free) = Overwrites-key k bs cs o free

  Overwrites-Puts : (bs cs : List A) → Overwrites bs cs → IsUnique key bs → Puts bs cs
  Overwrites-Puts [] cs o unique b = absurd o
  Overwrites-Puts (x ∷ bs) [] o unique b = absurd o
  Overwrites-Puts (x ∷ bs) (y ∷ cs) (inl (same, e, e')) (free, unique) b =
      let apart = free_key key (key x) b bs free in rw (e, e') (ground (arith, apart, same))
  Overwrites-Puts (x ∷ bs) (y ∷ cs) (inr (e, o)) (free, unique) b =
      let rest = Overwrites-Puts bs cs o unique b in
      let apart = Overwrites-key (key x) bs cs o free in rw e (ground (arith, rest, apart))

  inserted-Puts : (bs : List A) → IsFree key (key a) bs → Puts bs (a ∷ bs)
  inserted-Puts bs free b = let apart = free_key key (key a) b bs free in ground (arith, apart)

-- The values of a table after some saves.
abbrev pub Saved : {A K : Type 0} → (A → K) → List A → List A → List A → Type 0
Saved {A} key saves bs cs =
    (b : A) → (b ∈ cs) ↔ (IsLatest key b saves ⊎ ((b ∈ bs) × IsFree key (key b) saves))

Saved-cons :
    {A K : Type 0} (key : A → K) (a b : A) (saves bs cs es : List A)
    → (b ∈ cs) ↔ ((b ≡ a) ⊎ ((b ∈ bs) × (key b ≢ key a)))
    → (b ∈ es) ↔ (IsLatest key b saves ⊎ ((b ∈ cs) × IsFree key (key b) saves))
    → (b ∈ es) ↔ (IsLatest key b (a ∷ saves) ⊎ ((b ∈ bs) × IsFree key (key b) (a ∷ saves)))
Saved-cons key a b saves bs cs es puts ih = ground (arith, puts, ih)

upsert_cases :
    {D : Type 0} (m : Driver D) (message collection : String) (keys : List String) (doc : Doc)
    (d d' : D)
    → upsert m message collection keys doc d ≡ ok d'
    → (m.find_one_and_update collection (picked keys doc) doc d ≡ replaced d')
      ⊎ (m.find_one_and_update collection (picked keys doc) doc d ≡ inserted d')
unfolding upsert
upsert_cases m message collection keys doc d d' saved =
    let u = m.find_one_and_update collection (picked keys doc) doc d in ground (arith, saved)

-- The documents of a collection are those of these values, which have different keys.
abbrev pub IsTable :
    {D A K : Type 0} {m : Driver D}
    → Documented m
    → String
    → (A → Doc)
    → (A → K)
    → D
    → List A
    → Type 0
IsTable l collection encode key d bs = Holds encode (l.documents collection d) bs × IsUnique key bs

-- Values of one type in a collection: `keys` are the fields by which a document is looked up, and
-- they say what `key` says.
module _ {D A K : Type 0} {m : Driver D} (l : Documented m) (collection : String)
    (keys : List String) (encode : A → Doc) (key : A → K)
    (picks : (a b : A) (others : Doc)
      → Matches (picked keys (encode a)) (encode b ++ others) ↔ (key b ≡ key a)) where
  replaced-Holds :
      (a : A) (old : Doc) (docs docs' : List Doc) (bs : List A)
      → Matches (picked keys (encode a)) old
      → Replaces old (encode a ++ old) docs docs'
      → Holds encode docs bs
      → (cs : List A) × Holds encode docs' cs × Overwrites key a bs cs
  replaced-Holds a old [] docs' bs match r h = absurd r
  replaced-Holds a old (doc ∷ docs) [] bs match r h = absurd r
  replaced-Holds a old (doc ∷ docs) (doc' ∷ docs') [] match r h = absurd h
  replaced-Holds a old (doc ∷ docs) (doc' ∷ docs') (b ∷ bs) match (inl (e, e', e''))
        ((others, stored), h) =
      let m : Matches (picked keys (encode a)) (encode b ++ others) =
        subst (Matches (picked keys (encode a))) (sym e ∙ stored) match in
      (a ∷ bs, ((old, e'), rw e'' h), inl ((picks a b others).0 m, refl, refl))
  replaced-Holds a old (doc ∷ docs) (doc' ∷ docs') (b ∷ bs) match (inr (e, r))
        ((others, stored), h) =
      let (cs, h', o) = replaced-Holds a old docs docs' bs match r h in
      (b ∷ cs, ((others, e ∙ stored), h'), inr (refl, o))

  unmatched-IsFree :
      (a : A) (docs : List Doc) (bs : List A)
      → ((old : Doc) → old ∈ docs → ¬ Matches (picked keys (encode a)) old)
      → Holds encode docs bs
      → IsFree key (key a) bs
  unmatched-IsFree a [] [] none_match h = tt
  unmatched-IsFree a [] (b ∷ bs) none_match h = absurd h
  unmatched-IsFree a (doc ∷ docs) [] none_match h = absurd h
  unmatched-IsFree a (doc ∷ docs) (b ∷ bs) none_match ((others, stored), h) = (
    λ same. none_match doc (inl refl) (rw stored ((picks a b others).1 same)),
    unmatched-IsFree a docs bs (λ old m. none_match old (inr m)) h,
  )

  pub upsert-Puts :
      (message : String) (a : A) (d d' : D) (bs : List A)
      → IsTable l collection encode key d bs
      → upsert m message collection keys (encode a) d ≡ ok d'
      → (cs : List A) × IsTable l collection encode key d' cs × Puts key a bs cs
  upsert-Puts message a d d' bs (h, unique) saved =
      let filter = picked keys (encode a) in
      elim (upsert_cases m message collection keys (encode a) d d' saved) [
        | inl e ↦
            let (old, match, r) = l.update_replaced collection filter (encode a) d d' e in
            let (cs, h', o) = replaced-Holds a old _ _ bs match r h in
            (
              cs,
              (h', Overwrites-IsUnique key a bs cs o unique),
              Overwrites-Puts key a bs cs o unique,
            )
        | inr e ↦
            let (none_match, others, new) = l.update_inserted collection filter (encode a) d d' e in
            let free = unmatched-IsFree a _ bs none_match h in
            (a ∷ bs, (rw new ((others, refl), h), (free, unique)), inserted-Puts key a bs free)
      ]

  -- After a run of saves the table has the latest value saved for each key, and for the other keys
  -- what it had.
  pub upsert_each-Saved :
      (message : String) (saves : List A) (d d' : D) (bs : List A)
      → IsTable l collection encode key d bs
      → upsert_each m message collection keys (map encode saves) d ≡ ok d'
      → (cs : List A) × IsTable l collection encode key d' cs × Saved key saves bs cs
  unfolding upsert_each
  upsert_each-Saved message [] d d' bs table saved = (
    bs,
    subst (λ x. IsTable l collection encode key x bs) (ok-injective d d' saved) table,
    λ b. ground arith,
  )
  upsert_each-Saved message (a ∷ saves) d d' bs table saved =
      let (d1, e, rest) = then_ok-ok _ _ d' saved in
      let (cs, table1, puts) = upsert-Puts message a d d1 bs table e in
      let (es, table2, ih) = upsert_each-Saved message saves d1 d' cs table1 rest in
      (es, table2, λ b. Saved-cons key a b saves bs cs es (puts b) (ih b))
