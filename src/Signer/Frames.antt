-- ===== src/Signer/Frames.antt =====
-- attestation/attestsigner_http.go: the framing of byte slices, written and read.
use mathlib.Core.List.{append-nil, append_assoc}
use mainstay.Prelude.{
  ℕ, zero, suc, ◌+◌, ◌%◌, ◌≤◌, ◌<◌, ◌≡◌, refl, sym, ap, ◌∙◌, arith, none, some, false, List, [],
  ◌∷◌, ◌++◌, length, get_elem?, take, drop, ltb, length-append, get_elem?-append_right, take-append,
  drop-append,
}
use mainstay.Signer.{serialize_from, serialize_bytes, unserialize_loop, unserialize_bytes}

abbrev pub AllShort : List (List ℕ) → Type 0
AllShort [] = Unit {0}
AllShort (x ∷ xs) = (length x < 256) × AllShort xs

abbrev framed : List (List ℕ) → List ℕ
framed [] = []
framed (x ∷ xs) = length x ∷ (x ++ framed xs)

serialize_from-eq :
    (pre : List ℕ) (xs : List (List ℕ)) → AllShort xs → serialize_from pre xs ≡ pre ++ framed xs
unfolding serialize_from
serialize_from-eq pre [] h = sym (append-nil pre)
serialize_from-eq pre (x ∷ xs) h =
    let size : length x % 256 ≡ length x = omega arith in
    rw size (serialize_from-eq _ xs h.1 ∙ regroup (framed xs))
  where
    regroup : (r : List ℕ) → ((pre ++ length x ∷ []) ++ x) ++ r ≡ pre ++ length x ∷ (x ++ r)
    regroup r = simp append_assoc

length-framed : (xs : List (List ℕ)) → length xs ≤ length (framed xs)
length-framed [] = omega arith
length-framed (x ∷ xs) = omega (arith, length-append x (framed xs), length-framed xs)

unserialize_loop-over :
    (fuel it : ℕ) (acc : List (List ℕ)) (bytes : List ℕ)
    → get_elem? bytes it ≡ none
    → unserialize_loop (suc fuel) it acc bytes ≡ acc
unfolding unserialize_loop
unserialize_loop-over fuel it acc bytes over = rw (over, unserialize_loop)

unserialize_loop-framed :
    (xs : List (List ℕ)) (fuel it : ℕ) (acc : List (List ℕ)) (pre : List ℕ)
    → it ≡ length pre
    → length xs ≤ fuel
    → unserialize_loop fuel it acc (pre ++ framed xs) ≡ acc ++ xs
unfolding unserialize_loop
unserialize_loop-framed [] zero it acc pre e few = sym (append-nil acc)
unserialize_loop-framed [] (suc fuel) it acc pre e few =
    let it' : it ≡ length pre + 0 = omega arith in
    let over : get_elem? (pre ++ []) it ≡ none = rw it' (get_elem?-append_right pre [] 0) in
    unserialize_loop-over fuel it acc (pre ++ []) over ∙ sym (append-nil acc)
unserialize_loop-framed (x ∷ xs) zero it acc pre e few = absurd (omega arith)
unserialize_loop-framed (x ∷ xs) (suc fuel) it acc pre e few =
    let all = pre ++ length x ∷ (x ++ framed xs) in
    let it' : it ≡ length pre + 0 = omega arith in
    let read : get_elem? all it ≡ some (length x) =
      rw it' (get_elem?-append_right pre (length x ∷ (x ++ framed xs)) 0) in
    let size = length-append pre (length x ∷ (x ++ framed xs)) in
    let within : ltb (length all) (length x + 1 + it) ≡ false =
      ground (arith, size, length-append x (framed xs)) in
    let behind : it + 1 ≡ length (pre ++ length x ∷ []) =
      omega (arith, length-append pre (length x ∷ [])) in
    let body : take (length x) (drop (it + 1) all) ≡ x =
      rw (behind, ← append_assoc pre (length x ∷ []) (x ++ framed xs), drop-append, take-append) in
    rw (read, within, body, unserialize_loop)
      (ap (unserialize_loop fuel (it + 1 + length x) (acc ++ x ∷ [])) (regroup (framed xs))
        ∙ unserialize_loop-framed xs fuel (it + 1 + length x) (acc ++ x ∷ [])
            ((pre ++ length x ∷ []) ++ x)
            (omega
              (arith, length-append (pre ++ length x ∷ []) x, length-append pre (length x ∷ [])))
            (omega arith)
        ∙ append_assoc acc (x ∷ []) xs)
  where
    regroup : (r : List ℕ) → pre ++ length x ∷ (x ++ r) ≡ ((pre ++ length x ∷ []) ++ x) ++ r
    regroup r = simp append_assoc

-- If every slice is shorter than 256 bytes, UnserializeBytes of SerializeBytes gives the slices
-- back.
pub unserialize_bytes-serialize :
    (xs : List (List ℕ)) → AllShort xs → unserialize_bytes (serialize_bytes xs) ≡ xs
unfolding unserialize_bytes serialize_bytes
unserialize_bytes-serialize xs h =
    rw (serialize_from-eq [] xs h)
      (unserialize_loop-framed xs (length (framed xs)) 0 [] [] refl (length-framed xs))
