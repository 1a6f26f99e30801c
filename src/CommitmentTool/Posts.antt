-- ===== src/CommitmentTool/Posts.antt =====
-- What the ocean mode posts.
use mainstay.Prelude.{
  ℕ, ◌≡◌, refl, not, Option, none, some, List, [], ◌∷◌, Option-cases, inl, inr, if◌then◌else◌,
}
use mainstay.Text.{bytes_of}
use mainstay.Hex.{encode_to_string, decode_string}
use mainstay.Wire.{Wire, Result, ok, err}
use mainstay.CommitmentTool.{
  Answer, Request, Exit, exited, panicked, success, Run, Outside, Settings, is_empty_text, request,
  sent, ended, send_or_exit, sign, ocean_round, go_on, do_ocean_mode,
}

-- What the tool signs: the bytes of the blockhash in the order in which it is displayed.
abbrev pub displayed : {Hash : Type 0} → Wire Hash → Hash → List ℕ
displayed w hash = (decode_string (bytes_of (w.hash_string hash))).0

module _ {Hash : Type 0} (o : Outside) (w : Wire Hash) (v : Settings) where
  -- A signature by the key that is set, or the empty one.
  abbrev pub IsSignature : List ℕ → List ℕ → Type 0
  IsSignature msg sig =
      (if not (is_empty_text v.privkey) then sign o v.privkey msg else some []) ≡ some sig

  -- The requests are those of the first rounds in order, each with the blockhash of its round.
  abbrev pub ArePosts : List ((Request → Answer) × Result Hash) → List Request → Type 0
  ArePosts rounds [] = Unit
  ArePosts [] (post ∷ posts) = ⊥
  ArePosts ((api, err e) ∷ rounds) (post ∷ posts) = ⊥
  ArePosts ((api, ok hash) ∷ rounds) (post ∷ posts) =
      ((sig : List ℕ) × IsSignature (displayed w hash) sig
        × (post ≡ request o v sig (bytes_of (w.hash_string hash))))
      × ArePosts rounds posts

  -- Every answer to these requests is one without an error.
  abbrev pub AreAccepted : List ((Request → Answer) × Result Hash) → List Request → Type 0
  AreAccepted [] [] = Unit
  AreAccepted [] (post ∷ posts) = ⊥
  AreAccepted (round ∷ rounds) [] = ⊥
  AreAccepted ((api, best) ∷ rounds) (post ∷ posts) =
      (sent (api post) ≡ some none) × AreAccepted rounds posts

  -- A run that ends without an error has all its requests accepted.
  abbrev pub IsAcceptedRun : List ((Request → Answer) × Result Hash) → List Request → Exit → Type 0
  IsAcceptedRun rounds posts exited = Unit
  IsAcceptedRun rounds posts panicked = Unit
  IsAcceptedRun rounds posts success = AreAccepted rounds posts

  abbrev Fits : List ((Request → Answer) × Result Hash) → Run → Type 0
  Fits rounds (posts, e) = ArePosts rounds posts × IsAcceptedRun rounds posts e

  module _
      (plain : (hash : Hash)
        → encode_to_string (displayed w hash) ≡ bytes_of (w.hash_string hash)) where
    posted-Fits :
        (api : Request → Answer) (hash : Hash) (sig : List ℕ)
        → IsSignature (displayed w hash) sig
        → (rounds : List ((Request → Answer) × Result Hash)) (rest : Run) → Fits rounds rest
        → (r : Option (Option (List ℕ)))
        → sent (api (request o v sig (bytes_of (w.hash_string hash)))) ≡ r
        → Fits
            ((api, ok hash) ∷ rounds)
            (go_on (request o v sig (bytes_of (w.hash_string hash)) ∷ [], ended r) rest)
    posted-Fits api hash sig signed rounds rest fits none e = (((sig, signed, refl), tt), tt)
    posted-Fits api hash sig signed rounds rest fits (some (some x)) e =
        (((sig, signed, refl), tt), tt)
    posted-Fits api hash sig signed rounds (posts, success) fits (some none) e =
        (((sig, signed, refl), fits.0), (e, fits.1))
    posted-Fits api hash sig signed rounds (posts, exited) fits (some none) e =
        (((sig, signed, refl), fits.0), tt)
    posted-Fits api hash sig signed rounds (posts, panicked) fits (some none) e =
        (((sig, signed, refl), fits.0), tt)

    round-Fits :
        (api : Request → Answer) (best : Result Hash)
        (rounds : List ((Request → Answer) × Result Hash)) (rest : Run)
        → Fits rounds rest
        → Fits ((api, best) ∷ rounds) (go_on (ocean_round o w api best v) rest)
    unfolding ocean_round send_or_exit
    round-Fits api (err e) rounds rest fits = (tt, tt)
    round-Fits api (ok hash) rounds rest fits =
        elim (Option-cases (
          if not (is_empty_text v.privkey) then sign o v.privkey (displayed w hash) else some [])) [
            | inl e ↦ rw e (tt, tt)
            | inr (sig, e) ↦ rw (e, plain hash) (posted-Fits api hash sig e rounds rest fits _ refl)
          ]

    -- Where a blockhash is displayed as the hexadecimal form of its bytes, the ocean mode posts, for
    -- the first rounds in order, one request each, which holds the best blockhash of that round with
    -- a signature of it by the key that is set, or the empty one; it ends without an error only if
    -- it has posted for every round and the API accepted every request.
    pub do_ocean_mode-ArePosts :
        (rounds : List ((Request → Answer) × Result Hash))
        → ArePosts rounds (do_ocean_mode o w rounds v).0
          × IsAcceptedRun rounds (do_ocean_mode o w rounds v).0 (do_ocean_mode o w rounds v).1
    unfolding do_ocean_mode
    do_ocean_mode-ArePosts [] = (tt, tt)
    do_ocean_mode-ArePosts ((api, best) ∷ rounds) =
        round-Fits api best rounds (do_ocean_mode o w rounds v) (do_ocean_mode-ArePosts rounds)
