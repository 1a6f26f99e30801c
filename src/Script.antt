-- ===== src/Script.antt =====
-- crypto/scripts.go: CreateScriptSig and ParseScriptSig. A byte is a number below 256, a `Sig` a
-- list of bytes, and `byte(n)` is n % 256. `none` is a panic: an index out of range.
pub mod Roundtrip
pub mod Fuel
pub mod Sizes
pub mod Multisig
pub mod Redeem
pub mod Toy
mod Tests
use mainstay.Prelude.{
  ℕ, zero, suc, ◌+◌, ◌%◌, Option, none, some, List, [], ◌∷◌, ◌++◌, ◌==◌, if◌then◌else◌, length,
  get_elem?, take, drop, ltb, leb,
}
use mainstay.Prelude.Panic.{◌>>=◌}

abbrev pub Sig : Type 0
Sig = List ℕ

abbrev pub op_push_data1 : ℕ
op_push_data1 = 76

-- `s[from : from + n]`, within the bounds that the caller has checked.
abbrev pub slice : List ℕ → ℕ → ℕ → List ℕ
slice s from n = take n (drop from s)

-- The size at `it`, behind OP_PUSHDATA1 if that stands there, and its index.
unfoldable pub read_size : List ℕ → ℕ → Option (ℕ × ℕ)
read_size script_sig it = get_elem? script_sig it >>= λ size.
    if size == op_push_data1
    then (get_elem? script_sig (it + 1) >>= λ next. some (it + 1, next))
    else some (it, size)

-- The endless loop, on fuel: `it` grows in each round.
unfoldable pub parse_loop : ℕ → ℕ → List Sig → List ℕ → Option (List Sig × List ℕ)
unfolding read_size
parse_loop zero it sigs script_sig = none
parse_loop (suc fuel) it sigs script_sig = read_size script_sig it >>= λ (at, size).
    let script = slice script_sig (at + 1) size in
    let next = at + 1 + size in
    let rest = parse_loop fuel next (sigs ++ script ∷ []) script_sig in
    if ltb (length script_sig) (size + 1 + at)
    then some (sigs, [])
    else if leb (length script_sig) next
    then some (sigs, script)
    else rest

unfoldable pub parse_script_sig : List ℕ → Option (List Sig × List ℕ)
unfolding parse_loop
parse_script_sig [] = some ([], [])
parse_script_sig (b ∷ bs) = parse_loop (length (b ∷ bs)) 1 [] (b ∷ bs)

-- The loop that appends the sigs.
unfoldable pub append_sigs : List ℕ → List Sig → List ℕ
append_sigs script_sig [] = script_sig
append_sigs script_sig (sig ∷ sigs) =
    append_sigs ((script_sig ++ length sig % 256 ∷ []) ++ sig) sigs

unfoldable pub create_script_sig : List Sig → List ℕ → List ℕ
unfolding append_sigs
create_script_sig sigs script =
    let script_sig = append_sigs (0 ∷ []) sigs in
    let marked = if ltb 75 (length script) then script_sig ++ op_push_data1 ∷ [] else script_sig in
    (marked ++ length script % 256 ∷ []) ++ script
