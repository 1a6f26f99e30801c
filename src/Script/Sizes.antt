-- ===== src/Script/Sizes.antt =====
-- A size is one byte: what that means for a script of 256 bytes or more.
use mainstay.Prelude.{
  ℕ, zero, suc, ◌+◌, ◌%◌, ◌≤◌, ◌<◌, ◌≡◌, ◌≢◌, arith, Option, none, some, List, [], ◌∷◌, ◌++◌,
  length, get_elem?, take, ltb, Bool-cases, inl, inr,
}
use mathlib.Core.Path.{subst}
use mainstay.Hex.Laws.{AllBytes}
use mainstay.Script.{Sig, read_size, parse_script_sig, append_sigs, create_script_sig}
use mainstay.Script.Fuel.{Ends, panics, beyond, last, next, parse_script_sig-Ends}

-- The bytes of each sig are below 256.
abbrev pub AllSigs : List Sig → Type 0
AllSigs [] = Unit {0}
AllSigs (sig ∷ sigs) = AllBytes sig × AllSigs sigs

AllBytes-append : (xs ys : List ℕ) → AllBytes xs → AllBytes ys → AllBytes (xs ++ ys)
AllBytes-append [] ys h k = k
AllBytes-append (x ∷ xs) ys (low, h) k = (low, AllBytes-append xs ys h k)

append_sigs-AllBytes :
    (script_sig : List ℕ) (sigs : List Sig)
    → AllBytes script_sig
    → AllSigs sigs
    → AllBytes (append_sigs script_sig sigs)
unfolding append_sigs
append_sigs-AllBytes script_sig [] h k = h
append_sigs-AllBytes script_sig (sig ∷ sigs) h (k, ks) =
    let size : AllBytes (length sig % 256 ∷ []) = (omega arith, tt) in
    append_sigs-AllBytes ((script_sig ++ length sig % 256 ∷ []) ++ sig) sigs
      (AllBytes-append _ sig (AllBytes-append script_sig _ h size) k) ks

create_script_sig-AllBytes :
    (sigs : List Sig) (script : List ℕ)
    → AllSigs sigs
    → AllBytes script
    → AllBytes (create_script_sig sigs script)
unfolding create_script_sig
create_script_sig-AllBytes sigs script h k =
    let all = append_sigs-AllBytes (0 ∷ []) sigs (omega arith, tt) h in
    let size : AllBytes (length script % 256 ∷ []) = (omega arith, tt) in
    elim (Bool-cases (ltb 75 (length script))) [
      | inl long ↦ rw long (
          AllBytes-append _ script
            (AllBytes-append _ _ (AllBytes-append _ (76 ∷ []) all (omega arith, tt)) size) k)
      | inr short ↦ rw short (AllBytes-append _ script (AllBytes-append _ _ all size) k)
    ]

get_elem?-byte : (s : List ℕ) (i b : ℕ) → AllBytes s → get_elem? s i ≡ some b → b < 256
get_elem?-byte [] i b h e = absurd cc
get_elem?-byte (x ∷ s) zero b (low, h) e = ground arith
get_elem?-byte (x ∷ s) (suc i) b (low, h) e = get_elem?-byte s i b h e

read_size-byte :
    (s : List ℕ) (it at size : ℕ) → AllBytes s → read_size s it ≡ some (at, size) → size < 256
unfolding read_size
read_size-byte s it at size h e =
    ground (arith, get_elem?-byte s it size h, get_elem?-byte s (it + 1) size h)

length-take-le : (n : ℕ) (s : List ℕ) → length (take n s) ≤ n
length-take-le zero s = omega arith
length-take-le (suc n) [] = omega arith
length-take-le (suc n) (x ∷ s) = omega (arith, length-take-le n s)

-- The script of a result is shorter than 256 bytes.
abbrev IsShort : Option (List Sig × List ℕ) → Type 0
IsShort none = Unit {0}
IsShort (some (sigs, script)) = length script < 256

Ends-IsShort :
    (s : List ℕ) (it : ℕ) (sigs : List Sig) (result : Option (List Sig × List ℕ))
    → AllBytes s
    → Ends s it sigs result
    → IsShort result
Ends-IsShort s _ _ _ h (panics it sigs e) = tt
Ends-IsShort s _ _ _ h (beyond it sigs at size e over) = omega arith
Ends-IsShort s _ _ _ h (last it sigs at size e all) =
    omega (arith, length-take-le size _, read_size-byte s it at size h e)
Ends-IsShort s _ _ _ h (next it sigs at size result e more rest) = Ends-IsShort s _ _ result h rest

parse_script_sig-IsShort : (s : List ℕ) → AllBytes s → IsShort (parse_script_sig s)
unfolding parse_script_sig
parse_script_sig-IsShort [] h = omega arith
parse_script_sig-IsShort (b ∷ bs) h = Ends-IsShort (b ∷ bs) 1 [] _ h (parse_script_sig-Ends b bs)

-- A redeem script of 256 bytes or more has a truncated size byte: whatever signatures stand with
-- it in the script that CreateScriptSig makes, ParseScriptSig never gives it back. The signatures
-- and the script consist of bytes.
pub parse_script_sig_long :
    (sigs : List Sig) (script : List ℕ) (sigs' : List Sig)
    → AllSigs sigs
    → AllBytes script
    → 256 ≤ length script
    → parse_script_sig (create_script_sig sigs script) ≢ some (sigs', script)
parse_script_sig_long sigs script sigs' h k long = λ e.
    let short =
      parse_script_sig-IsShort (create_script_sig sigs script)
        (create_script_sig-AllBytes sigs script h k) in
    let low : length script < 256 = subst IsShort e short in omega arith
