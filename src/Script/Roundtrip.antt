-- ===== src/Script/Roundtrip.antt =====
-- ParseScriptSig reads what CreateScriptSig writes.
use mathlib.Core.List.{append-nil, append_assoc}
use mainstay.Prelude.{
  ℕ, zero, suc, ◌+◌, ◌%◌, ◌≤◌, ◌<◌, ◌≡◌, ◌≢◌, refl, sym, ap, ◌∙◌, arith, some, true, false, List,
  [], ◌∷◌, ◌++◌, ◌==◌, if◌then◌else◌, length, get_elem?, ltb, leb, length-append,
  get_elem?-append_right, take-append, drop-append, Bool-cases, inl, inr,
}
use mainstay.Script.{
  Sig, op_push_data1, slice, read_size, parse_loop, parse_script_sig, append_sigs,
  create_script_sig,
}

-- A signature whose size byte is neither truncated nor read as OP_PUSHDATA1.
abbrev pub IsPlain : Sig → Type 0
IsPlain sig = (length sig < 256) × (length sig ≢ 76)

abbrev pub AllPlain : List Sig → Type 0
AllPlain [] = Unit {0}
AllPlain (sig ∷ sigs) = IsPlain sig × AllPlain sigs

-- The last element, and the whole behind the leading 0, as a plain recursion.
abbrev pushed : List ℕ → List ℕ
pushed script =
    if ltb 75 (length script) then 76 ∷ length script ∷ script else length script ∷ script

abbrev encoded : List Sig → List ℕ → List ℕ
encoded [] script = pushed script
encoded (sig ∷ sigs) script = length sig ∷ (sig ++ encoded sigs script)

append_sigs-eq :
    (pre : List ℕ) (sigs : List Sig) (script : List ℕ)
    → AllPlain sigs
    → append_sigs pre sigs ++ pushed script ≡ pre ++ encoded sigs script
unfolding append_sigs
append_sigs-eq pre [] script h = refl
append_sigs-eq pre (sig ∷ sigs) script h =
    let size : length sig % 256 ≡ length sig = omega arith in
    rw size (
      append_sigs-eq ((pre ++ length sig ∷ []) ++ sig) sigs script h.1
      ∙ append_assoc (pre ++ length sig ∷ []) sig (encoded sigs script)
      ∙ append_assoc pre (length sig ∷ []) (sig ++ encoded sigs script))

pushed-eq :
    (pre script : List ℕ)
    → let marked = if ltb 75 (length script) then pre ++ op_push_data1 ∷ [] else pre in
      (marked ++ length script ∷ []) ++ script ≡ pre ++ pushed script
pushed-eq pre script = elim (Bool-cases (ltb 75 (length script))) [
  | inl long ↦ rw long (simp append_assoc)
  | inr short ↦ rw short (simp append_assoc)
]

create_script_sig-eq :
    (sigs : List Sig) (script : List ℕ)
    → AllPlain sigs
    → length script < 256
    → create_script_sig sigs script ≡ 0 ∷ encoded sigs script
unfolding create_script_sig
create_script_sig-eq sigs script h short =
    let size : length script % 256 ≡ length script = omega arith in
    rw size (pushed-eq (append_sigs (0 ∷ []) sigs) script ∙ append_sigs-eq (0 ∷ []) sigs script h)

-- What stands behind a prefix, its size byte included.
slice-eq :
    (pre : List ℕ) (b : ℕ) (s rest : List ℕ) (n : ℕ)
    → n ≡ length pre + 1
    → slice (pre ++ b ∷ (s ++ rest)) n (length s) ≡ s
slice-eq pre b s rest n e =
    let n' : n ≡ length (pre ++ b ∷ []) = omega (arith, length-append pre (b ∷ [])) in
    rw (n', ← append_assoc pre (b ∷ []) (s ++ rest), drop-append, take-append)

read-eq :
    (pre : List ℕ) (b : ℕ) (rest : List ℕ) (n : ℕ)
    → n ≡ length pre
    → get_elem? (pre ++ b ∷ rest) n ≡ some b
read-eq pre b rest n e =
    let n' : n ≡ length pre + 0 = omega arith in rw n' (get_elem?-append_right pre (b ∷ rest) 0)

read_size-plain :
    (pre : List ℕ) (b : ℕ) (rest : List ℕ) (n : ℕ)
    → n ≡ length pre
    → b ≢ 76
    → read_size (pre ++ b ∷ rest) n ≡ some (n, b)
unfolding read_size
read_size-plain pre b rest n e plain =
    let other : (b == 76) ≡ false = ground arith in rw (read-eq pre b rest n e, other)

pub read_size-marked :
    (pre : List ℕ) (b : ℕ) (rest : List ℕ) (n : ℕ)
    → n ≡ length pre
    → read_size (pre ++ 76 ∷ b ∷ rest) n ≡ some (n + 1, b)
unfolding read_size
read_size-marked pre b rest n e =
    let next : get_elem? (pre ++ 76 ∷ b ∷ rest) (n + 1) ≡ some b =
      rw (← append_assoc pre (76 ∷ []) (b ∷ rest))
        (read-eq (pre ++ 76 ∷ []) b rest (n + 1) (omega (arith, length-append pre (76 ∷ [])))) in
    rw (read-eq pre 76 (b ∷ rest) n e, next)

-- A round at an element with something behind it.
parse_loop-more :
    (fuel it : ℕ) (acc : List Sig) (pre : List ℕ) (sig : Sig) (b : ℕ) (rest : List ℕ)
    → it ≡ length pre
    → IsPlain sig
    → parse_loop (suc fuel) it acc (pre ++ length sig ∷ (sig ++ b ∷ rest))
      ≡ parse_loop fuel
          (it + 1 + length sig)
          (acc ++ sig ∷ [])
          (pre ++ length sig ∷ (sig ++ b ∷ rest))
unfolding parse_loop
parse_loop-more fuel it acc pre sig b rest e plain =
    let all = pre ++ length sig ∷ (sig ++ b ∷ rest) in
    let size = length-append pre (length sig ∷ (sig ++ b ∷ rest)) in
    let size' = length-append sig (b ∷ rest) in
    let inside : ltb (length all) (length sig + 1 + it) ≡ false = ground (arith, size, size') in
    let more : leb (length all) (it + 1 + length sig) ≡ false = ground (arith, size, size') in
    rw (
      read_size-plain pre (length sig) (sig ++ b ∷ rest) it e plain.1,
      inside,
      more,
      slice-eq pre (length sig) sig (b ∷ rest) (it + 1) (omega arith),
    )

slice-last :
    (pre : List ℕ) (b : ℕ) (s : List ℕ) (n : ℕ)
    → n ≡ length pre + 1
    → slice (pre ++ b ∷ s) n (length s) ≡ s
slice-last pre b s n e =
    ap (λ t. slice (pre ++ b ∷ t) n (length s)) (sym (append-nil s)) ∙ slice-eq pre b s [] n e

-- The round at the last element, once its size is read.
parse_loop-end :
    (fuel it at : ℕ) (acc : List Sig) (pre script : List ℕ)
    → at ≡ length pre
    → read_size (pre ++ length script ∷ script) it ≡ some (at, length script)
    → parse_loop (suc fuel) it acc (pre ++ length script ∷ script) ≡ some (acc, script)
unfolding parse_loop
parse_loop-end fuel it at acc pre script e read =
    let all = pre ++ length script ∷ script in
    let size = length-append pre (length script ∷ script) in
    let inside : ltb (length all) (length script + 1 + at) ≡ false = ground (arith, size) in
    let last : leb (length all) (at + 1 + length script) ≡ true = ground (arith, size) in
    rw (read, inside, last, slice-last pre (length script) script (at + 1) (omega arith))

parse_loop-last :
    (fuel it : ℕ) (acc : List Sig) (pre script : List ℕ)
    → it ≡ length pre
    → parse_loop (suc fuel) it acc (pre ++ pushed script) ≡ some (acc, script)
parse_loop-last fuel it acc pre script e = elim (Bool-cases (ltb 75 (length script))) [
  | inl long ↦
      let moved = append_assoc pre (76 ∷ []) (length script ∷ script) in
      rw (long, ← moved)
        (parse_loop-end fuel it (it + 1) acc (pre ++ 76 ∷ []) script
          (omega (arith, length-append pre (76 ∷ [])))
          (rw moved (read_size-marked pre (length script) script it e)))
  | inr short ↦ rw short (
      parse_loop-end fuel it it acc pre script e
        (read_size-plain pre (length script) script it e (λ q. ground arith)))
]

-- Every last element begins with a byte.
pushed-cons : (script : List ℕ) → (b : ℕ) × (rest : List ℕ) × (pushed script ≡ b ∷ rest)
pushed-cons script = elim (Bool-cases (ltb 75 (length script))) [
  | inl long ↦ (76, length script ∷ script, rw long)
  | inr short ↦ (length script, script, rw short)
]

encoded-cons :
    (sigs : List Sig) (script : List ℕ)
    → (b : ℕ) × (rest : List ℕ) × (encoded sigs script ≡ b ∷ rest)
encoded-cons [] script = pushed-cons script
encoded-cons (sig ∷ sigs) script = (length sig, sig ++ encoded sigs script, refl)

parse_loop-encoded :
    (sigs : List Sig) (fuel it : ℕ) (acc : List Sig) (pre script : List ℕ)
    → it ≡ length pre
    → length sigs < fuel
    → AllPlain sigs
    → parse_loop fuel it acc (pre ++ encoded sigs script) ≡ some (acc ++ sigs, script)
parse_loop-encoded sigs zero it acc pre script e few h = elim few [ ]
parse_loop-encoded [] (suc fuel) it acc pre script e few h =
    rw append-nil (parse_loop-last fuel it acc pre script e)
parse_loop-encoded (sig ∷ sigs) (suc fuel) it acc pre script e few h =
    let (b, rest, q) = encoded-cons sigs script in
    let size = length-append (pre ++ length sig ∷ []) sig in
    let round = parse_loop-more fuel it acc pre sig b rest e h.0 in
    let ih =
      parse_loop-encoded sigs fuel (it + 1 + length sig) (acc ++ sig ∷ [])
        ((pre ++ length sig ∷ []) ++ sig) script
        (omega (arith, size, length-append pre (length sig ∷ []))) (omega arith) h.1 in
    rw (← q) at round
    ∙ ap (parse_loop fuel (it + 1 + length sig) (acc ++ sig ∷ [])) (regroup (encoded sigs script))
    ∙ ih
    ∙ ap (λ l. some (l, script)) (append_assoc acc (sig ∷ []) sigs)
  where
    regroup : (r : List ℕ) → pre ++ length sig ∷ (sig ++ r) ≡ ((pre ++ length sig ∷ []) ++ sig) ++ r
    regroup r = simp append_assoc

length-encoded : (sigs : List Sig) (script : List ℕ) → length sigs ≤ length (encoded sigs script)
length-encoded [] script = omega arith
length-encoded (sig ∷ sigs) script =
    omega (arith, length-append sig (encoded sigs script), length-encoded sigs script)

-- If each signature is shorter than 256 bytes and not 76 bytes long, and the redeem script is
-- shorter than 256 bytes, ParseScriptSig of CreateScriptSig gives back signatures and script.
pub parse_script_sig-create :
    (sigs : List Sig) (script : List ℕ)
    → AllPlain sigs
    → length script < 256
    → parse_script_sig (create_script_sig sigs script) ≡ some (sigs, script)
unfolding parse_script_sig
parse_script_sig-create sigs script h short = rw (create_script_sig-eq sigs script h short) (
    parse_loop-encoded sigs (suc (length (encoded sigs script))) 1 [] (0 ∷ []) script refl
      (omega (arith, length-encoded sigs script)) h)
