-- ===== src/Script/Fuel.antt =====
-- The loop of ParseScriptSig ends on every input.
use mainstay.Prelude.{
  ℕ, zero, suc, ◌+◌, ◌≤◌, ◌<◌, ◌≡◌, refl, arith, Option, none, some, List, [], ◌∷◌, ◌++◌,
  if◌then◌else◌, length, get_elem?, ltb, leb, Bool-cases, inl, inr,
}
use mainstay.Prelude.Panic.{◌>>=◌}
use mainstay.Script.{Sig, slice, read_size, parse_loop, parse_script_sig}

-- A run of the endless loop that ends, without any fuel: from the index and the sigs so far to
-- the result that it returns, or `none` where it panics by a read out of range.
pub data Ends (s : List ℕ) : ℕ → List Sig → Option (List Sig × List ℕ) → Type 0 where
  panics : (it : ℕ) (sigs : List Sig) → read_size s it ≡ none → Ends s it sigs none
  beyond :
      (it : ℕ) (sigs : List Sig) (at size : ℕ)
      → read_size s it ≡ some (at, size)
      → length s < size + 1 + at
      → Ends s it sigs (some (sigs, []))
  last :
      (it : ℕ) (sigs : List Sig) (at size : ℕ)
      → read_size s it ≡ some (at, size)
      → length s ≡ at + 1 + size
      → Ends s it sigs (some (sigs, slice s (at + 1) size))
  next :
      (it : ℕ) (sigs : List Sig) (at size : ℕ) (result : Option (List Sig × List ℕ))
      → read_size s it ≡ some (at, size)
      → at + 1 + size < length s
      → Ends s (at + 1 + size) (sigs ++ slice s (at + 1) size ∷ []) result
      → Ends s it sigs result

get_elem?-end : (s : List ℕ) (i : ℕ) → length s ≤ i → get_elem? s i ≡ none
get_elem?-end [] i h = refl
get_elem?-end (x ∷ s) zero h = absurd (omega arith)
get_elem?-end (x ∷ s) (suc i) h = get_elem?-end s i (omega arith)

-- The size byte stands at `it` or behind it.
read_size-le : (s : List ℕ) (it at size : ℕ) → read_size s it ≡ some (at, size) → it ≤ at
unfolding read_size
read_size-le s it at size e = ground arith

-- One round, by what it reads; `rest` is the recursive call.
abbrev round :
    Option (ℕ × ℕ)
    → List Sig
    → List ℕ
    → (ℕ → List Sig → Option (List Sig × List ℕ))
    → Option (List Sig × List ℕ)
round o sigs s rest = o >>= λ (at, size).
    let script = slice s (at + 1) size in
    let next = at + 1 + size in
    let later = rest next (sigs ++ script ∷ []) in
    if ltb (length s) (size + 1 + at)
    then some (sigs, [])
    else if leb (length s) next
    then some (sigs, script)
    else later

round-Ends :
    (s : List ℕ) (it : ℕ) (sigs : List Sig) (rest : ℕ → List Sig → Option (List Sig × List ℕ))
    (o : Option (ℕ × ℕ))
    → read_size s it ≡ o
    → ((next : ℕ) (acc : List Sig) → it < next → Ends s next acc (rest next acc))
    → Ends s it sigs (round o sigs s rest)
round-Ends s it sigs rest none e ih = panics it sigs e
round-Ends s it sigs rest (some (at, size)) e ih =
    elim (Bool-cases (ltb (length s) (size + 1 + at))) [
      | inl over ↦ rw over (beyond it sigs at size e (ground arith))
      | inr within ↦ elim (Bool-cases (leb (length s) (at + 1 + size))) [
        | inl all ↦ rw (within, all) (last it sigs at size e (ground arith))
        | inr more ↦
            let acc = sigs ++ slice s (at + 1) size ∷ [] in
            let further = ih (at + 1 + size) acc (omega (arith, read_size-le s it at size e)) in
            rw (within, more) (next it sigs at size _ e (ground arith) further)
      ]
    ]

parse_loop-Ends :
    (f it : ℕ) (sigs : List Sig) (s : List ℕ)
    → length s ≤ it + f
    → Ends s it sigs (parse_loop f it sigs s)
unfolding parse_loop
parse_loop-Ends zero it sigs s h =
    let out : read_size s it ≡ none = rw (read_size, get_elem?-end s it (omega arith)) in
    panics it sigs out
parse_loop-Ends (suc f) it sigs s h =
    round-Ends s it sigs (λ n a. parse_loop f n a s) (read_size s it) refl
      λ n a more. parse_loop-Ends f n a s (omega arith)

-- On every input that is not empty the endless loop of ParseScriptSig ends after finitely many
-- rounds: what the function gives is what the rounds, which have no fuel, lead to, and it is
-- `none` only if a round reads a size out of range.
pub parse_script_sig-Ends : (b : ℕ) (bs : List ℕ) → Ends (b ∷ bs) 1 [] (parse_script_sig (b ∷ bs))
unfolding parse_script_sig
parse_script_sig-Ends b bs = parse_loop-Ends (length (b ∷ bs)) 1 [] (b ∷ bs) (omega arith)
