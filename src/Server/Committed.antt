-- ===== src/Server/Committed.antt =====
-- What GetClientCommitment gives: the commitment of the hashes in the order of their positions.
use mainstay.Prelude.{ℕ, suc, ◌<◌, ◌≡◌, ap, arith, inl, inr, some, List, ◌∷◌, length, get_elem?}
use mainstay.Prelude.Int.{pos}
use mainstay.Prelude.Panic.{maybe}
use mainstay.Hashing.{Hashing}
use mainstay.Wire.{ok}
use mainstay.Merkle.Commitment.{Commitment}
use mainstay.Merkle.Attested.{IsTreeOf, new_commitment_total}
use mainstay.Server.{ClientCommitment, Db, last_position, commitment_result, get_client_commitment}
use mainstay.Server.Placed.{Ascending, at_position, hashes_by_position-at_position}

module _ {Hash D : Type 0} ⦃c : Hashing Hash⦄ (db : Db Hash D) where
  -- If the positions that the database gives are not negative and increase up to a last one below
  -- the largest `int32`, GetClientCommitment gives, without an error or a panic, a commitment with
  -- the reference tree over one hash for each position up to the last: at a position that the
  -- database gave its hash, at every other the zero hash.
  pub get_client_commitment-at_position :
      (d : D) (x : ClientCommitment Hash) (xs : List (ClientCommitment Hash)) (l : ℕ)
      → db.get_client_commitments d ≡ ok (x ∷ xs)
      → last_position x xs ≡ pos l
      → l < 2147483647
      → Ascending 0 (suc l) (x ∷ xs)
      → (commitment : Commitment Hash) × (get_client_commitment db d ≡ some (ok commitment))
        × (hs : List Hash) × (k : ℕ) × IsTreeOf hs k commitment.tree
        × (length hs ≡ suc l)
        × ((i : ℕ)
            → i < suc l
            → get_elem? hs i ≡ some (maybe (at_position i (x ∷ xs)) c.zero_hash λ h. h))
  unfolding get_client_commitment commitment_result
  get_client_commitment-at_position d x xs l given last small up =
      let (hs, placed, size, at) = hashes_by_position-at_position x xs l last small up in
      elim (new_commitment_total hs) [
        | inl (empty, _) ↦
            let none_left : length hs ≡ 0 = ap length empty in
            absurd (omega (arith, size, none_left))
        | inr (k, commitment, made, tree) ↦
            (commitment, rw (given, get_client_commitment, placed, made), hs, k, tree, size, at)
      ]
