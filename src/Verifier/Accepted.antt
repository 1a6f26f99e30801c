-- ===== src/Verifier/Accepted.antt =====
-- What a transaction and a commitment have passed that the verifier accepts.
use mathlib.Core.Path.{subst}
use mathlib.Core.Option.{some-injective, none-ne-some}
use text.Mathlib.TextEquality.{eq_iff}
use mainstay.Prelude.{
  ◌≡◌, ◌⊎◌, refl, sym, ◌∙◌, arith, Bool, true, false, Option, none, some, List, [], ◌∷◌, String,
  ◌==◌, if◌then◌else◌, length, inl, inr,
}
use mainstay.Prelude.Int.{wrap32}
use mainstay.Prelude.Panic.{◌>>=◌, >>=-some}
use mainstay.Hashing.{Hashing}
use mainstay.Wire.{Wire, Result, ok, err, ◌or_return◌, ok-injective}
use mainstay.Merkle.Proof.{CommitmentMerkleProof, CommitmentMerkleProofOp, prove_merkle_proof}
use mainstay.Script.Multisig.{create_multisig}
use mainstay.Staychain.{Tx}
use mainstay.Verifier.{
  Outside, ChainVerifier, ChainVerifierInfo, Object, attestation_of, commitment_of, proof_of,
  get_api_response, field, as_scalar, as_text, as_list, first_address, tweaked_pubs,
  verify_tx_basic, one_vout, verify_tx_addr, ops_of, verify_commitment_proof, proved_info,
  verify_commitment, no_info, verify,
}

err-ok : {A : Type 0} (e : String) (a : A) → err e ≡ ok a → ⊥
err-ok e a h = cc

-- A function that returns no error has a value of its first part and returns none behind it.
or_return-ok :
    {A B : Type 0} (r : Option (Result A)) (f : A → Option (Result B)) (b : B)
    → (r or_return f) ≡ some (ok b)
    → (a : A) × (r ≡ some (ok a)) × (f a ≡ some (ok b))
or_return-ok none f b h = absurd (none-ne-some (ok b) h)
or_return-ok (some (err e)) f b h = absurd (err-ok e b (some-injective (err e) (ok b) h))
or_return-ok (some (ok a)) f b h = (a, refl, h)

-- A test on whose other branch an error is returned.
if-ok :
    {B : Type 0} (t : Bool) (r : Option (Result B)) (e : String) (b : B)
    → (if t then r else some (err e)) ≡ some (ok b)
    → t ≡ true
if-ok true r e b h = refl
if-ok false r e b h = absurd (err-ok e b (some-injective (err e) (ok b) h))

one_vout-only :
    (vout : List (List String)) (address : String)
    → first_address vout ≡ some address
    → one_vout vout ≡ some (ok tt)
    → vout ≡ (address ∷ []) ∷ []
one_vout-only [] address first h = absurd (none-ne-some address first)
one_vout-only ([] ∷ rest) address first h = absurd (none-ne-some address first)
one_vout-only ((a ∷ []) ∷ []) address first h = rw (some-injective a address first) refl
one_vout-only ((a ∷ b ∷ more) ∷ []) address first h =
    let one : (length (a ∷ b ∷ more) == 1) ≡ true = if-ok _ _ _ tt h in absurd (ground (arith, one))
one_vout-only ((a ∷ more) ∷ next ∷ rest) address first h =
    let one : (length ((a ∷ more) ∷ next ∷ rest) == 1) ≡ true = if-ok _ _ _ tt h in
    absurd (ground (arith, one))

module _ {Hash Key Pub Address : Type 0} ⦃c : Hashing Hash⦄ (w : Wire Hash)
    (o : Outside Hash Key Pub Address) (v : ChainVerifier Key) where
  -- The only output has one address, that of the keys tweaked by the root.
  pub record HasTweakedAddress (tx : Tx) (root_hash : Hash) : Type 0 where
    pub address : String
    pub only : tx.vout ≡ (address ∷ []) ∷ []
    pub tweaked : List Pub
    pub keys : tweaked_pubs w o v.pubkeys (c.bytes root_hash) ≡ some (ok tweaked)
    pub same : o.address_string (create_multisig o.keys tweaked v.num_of_sigs).0 ≡ address

  -- The proof that the verifier tests.
  abbrev pub claim : Hash → Hash → List (CommitmentMerkleProofOp Hash) → CommitmentMerkleProof Hash
  claim root_hash hash ops = record {
    merkle_root = root_hash;
    client_position = wrap32 v.position;
    commitment = hash;
    ops = ops;
  }

  -- A proof for the commitment, under the root, that holds.
  pub record IsProved (root_hash : Hash) (info : ChainVerifierInfo Hash) : Type 0 where
    pub ops : List (CommitmentMerkleProofOp Hash)
    pub proved : prove_merkle_proof (claim root_hash info.hash ops) ≡ true
    pub height : o.get_block_height info.hash ≡ ok info.height

  verify_tx_addr-HasTweakedAddress :
      (tx : Tx) (root : String)
      → verify_tx_basic tx ≡ some (ok tt)
      → verify_tx_addr w o v tx root ≡ some (ok tt)
      → (root_hash : Hash) × (w.hash_of_string root ≡ some root_hash)
        × HasTweakedAddress tx root_hash
  unfolding verify_tx_addr verify_tx_basic
  verify_tx_addr-HasTweakedAddress tx root basic h =
      let (txaddr, at, h1) = >>=-some (first_address tx.vout) _ (ok tt) h in
      let (root_hash, is_root, h2) = >>=-some (w.hash_of_string root) _ (ok tt) h1 in
      let (tweaked, keys, h3) =
        or_return-ok (tweaked_pubs w o v.pubkeys (c.bytes root_hash)) _ tt h2 in
      (
        root_hash,
        is_root,
        record {
          address = txaddr;
          only = one_vout-only tx.vout txaddr at basic;
          tweaked = tweaked;
          keys = keys;
          same = (eq_iff _ txaddr).0 (if-ok _ _ _ tt h3);
        },
      )

  verify_commitment_proof-IsProved :
      (commitment root : String) (root_hash : Hash) (info : ChainVerifierInfo Hash)
      → w.hash_of_string root ≡ some root_hash
      → verify_commitment_proof w o v commitment root ≡ some (ok tt)
      → proved_info w o commitment ≡ some (ok info)
      → IsProved root_hash info
  unfolding verify_commitment_proof proved_info
  verify_commitment_proof-IsProved commitment root root_hash info e h p =
      let (resp, _, h1) =
        or_return-ok (get_api_response (o.api (proof_of v.position root))) _ tt h in
      let (hash, is_hash, h2) = >>=-some (w.hash_of_string commitment) _ (ok tt) h1 in
      let (root_hash', is_root, h3) = >>=-some (w.hash_of_string root) _ (ok tt) h2 in
      let (ops, _, h4) = >>=-some (field "ops" resp >>= as_list >>= ops_of w o) _ (ok tt) h3 in
      let (hash', is_hash', p1) = >>=-some (w.hash_of_string commitment) _ (ok info) p in
      let (height, is_height, p2) = or_return-ok (some (o.get_block_height hash')) _ info p1 in
      let same : hash ≡ hash' = some-injective hash hash' (sym is_hash ∙ is_hash') in
      let same' : root_hash' ≡ root_hash = some-injective root_hash' root_hash (sym is_root ∙ e) in
      let read = ok-injective _ info (some-injective _ _ p2) in
      let proved : prove_merkle_proof (claim root_hash' hash ops) ≡ true = if-ok _ _ _ tt h4 in
      subst (IsProved root_hash) read (record {
        ops = ops;
        proved =
            subst (λ r. prove_merkle_proof (claim r hash' ops) ≡ true) same'
              (subst (λ x. prove_merkle_proof (claim root_hash' x ops) ≡ true) same proved);
        height = some-injective _ _ is_height;
      })

  -- What an accepted commitment has passed, against the root that the API names.
  pub record IsAccepted (tx : Tx) (info : ChainVerifierInfo Hash) : Type 0 where
    pub answer : Object
    pub answered : get_api_response (o.api (attestation_of tx.txid)) ≡ some (ok answer)
    pub root : String
    pub named : (field "merkle_root" answer >>= as_scalar >>= as_text) ≡ some root
    pub root_hash : Hash
    pub is_root : w.hash_of_string root ≡ some root_hash
    pub tweaked_address : HasTweakedAddress tx root_hash
    pub commitment : (info ≡ no_info w o) ⊎ IsProved root_hash info

  verify_commitment-cases :
      (root : String) (root_hash : Hash) (r : Option (Result Object))
      (info : ChainVerifierInfo Hash)
      → w.hash_of_string root ≡ some root_hash
      → verify_commitment w o v root r ≡ some (ok info)
      → (info ≡ no_info w o) ⊎ IsProved root_hash info
  unfolding verify_commitment
  verify_commitment-cases root root_hash none info e h = absurd (none-ne-some (ok info) h)
  verify_commitment-cases root root_hash (some (err _)) info e h =
      inl (sym (ok-injective _ info (some-injective _ _ h)))
  verify_commitment-cases root root_hash (some (ok resp)) info e h =
      let (commitment, _, h1) =
        >>=-some (field "commitment" resp >>= as_scalar >>= as_text) _ (ok info) h in
      let (_, proved, h2) =
        or_return-ok (verify_commitment_proof w o v commitment root) _ info h1 in
      inr (verify_commitment_proof-IsProved commitment root root_hash info e proved h2)

  -- If the verifier accepts a transaction, then its only output has one address, and that is the
  -- address of the base keys tweaked by the merkle root that the API answers for the transaction;
  -- and either the verifier gives no commitment, or the commitment it gives is shown by a merkle
  -- proof to stand under this root, and its height is the one that the side client answers.
  pub verify-IsAccepted :
      (tx : Tx) (info : ChainVerifierInfo Hash)
      → verify w o v tx ≡ some (ok info)
      → IsAccepted tx info
  unfolding verify
  verify-IsAccepted tx info h =
      let (_, basic, h1) = or_return-ok (verify_tx_basic tx) _ info h in
      let (resp, answered, h2) =
        or_return-ok (get_api_response (o.api (attestation_of tx.txid))) _ info h1 in
      let (root, named, h3) =
        >>=-some (field "merkle_root" resp >>= as_scalar >>= as_text) _ (ok info) h2 in
      let (_, addressed, h4) = or_return-ok (verify_tx_addr w o v tx root) _ info h3 in
      let (root_hash, is_root, tweaked) =
        verify_tx_addr-HasTweakedAddress tx root basic addressed in
      record {
        answer = resp;
        answered = answered;
        root = root;
        named = named;
        root_hash = root_hash;
        is_root = is_root;
        tweaked_address = tweaked;
        commitment =
            verify_commitment-cases root root_hash
              (get_api_response (o.api (commitment_of root v.position))) info is_root h4;
      }
