-- ===== src/Server/Tests.antt =====
-- The server over the database in memory, with hashes that are numbers.
use mainstay.Prelude.Int.{pos, ◌+ℤ◌, wrap32}
use mainstay.Prelude.Panic.{maybe}
use mainstay.Prelude.{List, arith, ◌<◌, length, get_elem?, ℕ, ◌≡◌, refl, true, none, some, [], ◌∷◌}
use mainstay.Hashing.Toy.{toy_hashing}
use mainstay.Wire.{ok}
use mainstay.Wire.Toy.{toy_wire}
use mainstay.Merkle.Commitment.{Commitment, new_commitment, get_commitment_hash}
use mainstay.Merkle.Tree.{
  new_commitment_merkle_tree, build_merkle_tree, next_pow, copy_leaves, fill_parents, parent_of,
  hash_leaves,
}
use mainstay.Attestation.{Attestation, commitment_hash, new_attestation}
use mainstay.Server.Placed.{at_position}
use mainstay.Server.Committed.{get_client_commitment-at_position}
use mainstay.Merkle.Attested.{IsTreeOf}
use mainstay.Server.{
  ClientCommitment, Db, get_client_commitment, hashes_by_position, last_position,
  update_latest_attestation, get_attestation_commitment, get_latest_attestation_commitment_hash,
}
use mainstay.DbFake.{DbFake, db_fake, new_db_fake, save_attestation}
use mainstay.Server.Saved.{get_attestation_commitment-update}
use mainstay.Server.Latest.{get_latest-save_attestation}

-- The commitment that NewCommitment makes of the one hash 1.
abbrev commitment : Commitment ℕ
commitment = record {
  tree = record { commitments = 1 ∷ []; tree_store = some 1 ∷ none ∷ some 39 ∷ []; root = 39 };
}

abbrev attestation : Attestation ℕ
attestation = record (new_attestation 2 commitment) { confirmed = true }

get_attestation_commitment-update_example :
    (d' : DbFake ℕ) × (update_latest_attestation db_fake attestation new_db_fake ≡ some (d', none))
    × (get_attestation_commitment db_fake 2 true d' ≡ some (ok commitment))
unfolding new_attestation new_commitment new_db_fake get_commitment_hash new_commitment_merkle_tree
    build_merkle_tree next_pow copy_leaves fill_parents parent_of hash_leaves
get_attestation_commitment-update_example =
    get_attestation_commitment-update 1 [] commitment attestation new_db_fake true refl refl refl tt

get_latest-save_attestation_example :
    get_latest_attestation_commitment_hash db_fake "" true
      (save_attestation attestation new_db_fake)
    ≡ ok 39
unfolding new_attestation commitment_hash new_db_fake get_commitment_hash
get_latest-save_attestation_example =
    get_latest-save_attestation "" attestation new_db_fake tt refl refl

-- The positions 0 and 2, with no hash at 1.
abbrev at_0 : ClientCommitment ℕ
at_0 = record { commitment = 7; client_position = pos 0 }

abbrev at_2 : ClientCommitment ℕ
at_2 = record { commitment = 9; client_position = pos 2 }

hashes_with_gap : hashes_by_position (at_0 ∷ at_2 ∷ []) ≡ some (7 ∷ 0 ∷ 9 ∷ [])
unfolding hashes_by_position ◌+ℤ◌ wrap32
hashes_with_gap = refl

-- A database that gives the two.
abbrev two_clients : Db ℕ (DbFake ℕ)
two_clients = record db_fake { get_client_commitments = λ d. ok (at_0 ∷ at_2 ∷ []) }

get_client_commitment-at_position_example :
    (made : Commitment ℕ) × (get_client_commitment two_clients new_db_fake ≡ some (ok made))
    × (hs : List ℕ) × (k : ℕ) × IsTreeOf hs k made.tree
    × (length hs ≡ 3)
    × ((i : ℕ) → i < 3 → get_elem? hs i ≡ some (maybe (at_position i (at_0 ∷ at_2 ∷ [])) 0 λ h. h))
unfolding last_position
get_client_commitment-at_position_example =
    get_client_commitment-at_position two_clients new_db_fake at_0 (at_2 ∷ []) 2 refl refl
      (omega arith) (0, refl, omega arith, omega arith, (2, refl, omega arith, omega arith, tt))
