-- ===== src/Mongo/Saves.antt =====
-- The collections of db/db_mongo.go, as tables.
use Prim.Native.String.{◌++◌ as ◌⧺◌}
use mathlib.Core.Path.{fun_ext}
use mainstay.Mongo.Forms.{client_commitment_of-append}
use mainstay.Prelude.{
  ◌≡◌, refl, ◌↔◌, none, some, List, [], ◌∷◌, ◌++◌, String, ◌∈◌, arith, sym, ◌∙◌, map,
}
use mainstay.Hashing.{Hashing}
use mainstay.Wire.{Wire, Result, ok, ◌then_ok◌}
use mainstay.Server.{ClientCommitment}
use mainstay.Mongo.{Doc, client_commitment_doc, client_commitment_of}
use mainstay.Mongo.Db.{Driver, picked, upsert_each, save_client_commitment, get_client_commitments}
use mainstay.Mongo.Documented.{Documented, Matches}
use mainstay.Mongo.Table.{IsTable, IsLatest, upsert_each-Saved}
use mainstay.Mongo.Query.{find-Mem}

-- The collection of the client commitments.
module _ {Hash D : Type 0} (w : Wire Hash) {m : Driver D} (l : Documented m) where
  client_position-picks :
      (a b : ClientCommitment Hash) (others : Doc)
      → Matches
          (picked ("client_position" ∷ []) (client_commitment_doc w a))
          (client_commitment_doc w b ++ others)
        ↔ (b.client_position ≡ a.client_position)
  unfolding client_commitment_doc
  client_position-picks a b others = ground arith

  -- The collection is a table of these commitments by position.
  abbrev pub IsCommitments : D → List (ClientCommitment Hash) → Type 0
  IsCommitments = IsTable l "ClientCommitment" (client_commitment_doc w) (λ c. c.client_position)

  module _ ⦃hashing : Hashing Hash⦄ where
    -- Saves that are made one after the other, none with an error.
    unfoldable pub save_client_commitments : List (ClientCommitment Hash) → D → Result D
    save_client_commitments [] d = ok d
    save_client_commitments (c ∷ cs) d =
        save_client_commitment m w c d then_ok save_client_commitments cs

    save_client_commitments-eq-upsert_each :
        (cs : List (ClientCommitment Hash)) (d : D)
        → save_client_commitments cs d
          ≡ upsert_each m "could not save client commitment" "ClientCommitment"
              ("client_position" ∷ [])
              (map (client_commitment_doc w) cs)
              d
    unfolding save_client_commitments save_client_commitment upsert_each
    save_client_commitments-eq-upsert_each [] d = refl
    save_client_commitments-eq-upsert_each (c ∷ cs) d =
        rw (fun_ext (save_client_commitments-eq-upsert_each cs)) refl

    get_client_commitments-Mem :
        ((h : Hash) → w.hash_of_string (w.hash_string h) ≡ some h)
        → (e : String) (d : D) (bs : List (ClientCommitment Hash)) → IsCommitments d bs
        → (docs : List Doc) → m.find "ClientCommitment" [] "client_position" d ≡ ok (docs, none)
        → (found : List (ClientCommitment Hash)) × (get_client_commitments m w e d ≡ ok found)
          × ((c : ClientCommitment Hash) → (c ∈ found) ↔ (c ∈ bs))
    unfolding get_client_commitments
    get_client_commitments-Mem read e d bs (h, unique) docs queried =
        let (found, decodes, mem) =
          find-Mem (client_commitment_doc w) (client_commitment_of w e)
            (client_commitment_of-append w e read) m
            (λ x. "bad data in client commitment collection" ⧺ (" " ⧺ x))
            "bad data in client commitment collection" l "ClientCommitment" "client_position" []
            (λ c. Unit {0}) (λ b others. ground arith) d bs h docs queried in
        (found, rw queried decodes, λ c. ground (arith, mem c))

    -- For a collection that is empty at first, after saves without an error, a query without an error
    -- gives a commitment just if it is the latest that was saved for its position, where hashes are
    -- read back as they are printed and the driver does what it documents.
    pub get_client_commitments-save :
        ((h : Hash) → w.hash_of_string (w.hash_string h) ≡ some h)
        → (e : String) (cs : List (ClientCommitment Hash)) (d d' : D)
        → l.documents "ClientCommitment" d ≡ []
        → save_client_commitments cs d ≡ ok d'
        → (docs : List Doc) → m.find "ClientCommitment" [] "client_position" d' ≡ ok (docs, none)
        → (found : List (ClientCommitment Hash)) × (get_client_commitments m w e d' ≡ ok found)
          × ((c : ClientCommitment Hash)
              → (c ∈ found) ↔ IsLatest (λ (c' : ClientCommitment Hash). c'.client_position) c cs)
    get_client_commitments-save read e cs d d' empty saved docs queried =
        let (bs, table, latest) =
          upsert_each-Saved l "ClientCommitment" ("client_position" ∷ []) (client_commitment_doc w)
            (λ c. c.client_position) client_position-picks "could not save client commitment" cs d
            d' [] (rw empty (tt, tt)) (sym (save_client_commitments-eq-upsert_each cs d) ∙ saved) in
        let (found, result, mem) = get_client_commitments-Mem read e d' bs table docs queried in
        (found, result, λ c. ground (arith, latest c, mem c))
