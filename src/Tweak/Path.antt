-- ===== src/Tweak/Path.antt =====
-- The derivation path of a tweak holds the tweak.
use mainstay.Prelude.{
  ℕ, zero, suc, ◌+◌, ◌*◌, ◌≡◌, refl, sym, arith, true, List, [], ◌∷◌, length, drop, ◌==◌,
}
use mainstay.Tweak.{Child, byte_at, path_from, get_derivation_path_from_tweak, derivation_size}

-- The bytes of the path, in its order.
abbrev pub flatten : List Child → List ℕ
flatten [] = []
flatten ((hi, lo) ∷ path) = hi ∷ lo ∷ flatten path

-- Two bytes of what is left.
drop_two :
    (s : List ℕ) (i n : ℕ)
    → length (drop i s) ≡ suc (suc n)
    → (drop i s ≡ byte_at s i ∷ byte_at s (suc i) ∷ drop (suc (suc i)) s)
      × (length (drop (suc (suc i)) s) ≡ n)
drop_two [] zero n e = absurd (omega arith)
drop_two [] (suc i) n e = absurd (omega arith)
drop_two (x ∷ []) zero n e = absurd (omega arith)
drop_two (x ∷ y ∷ s) zero n e = (refl, omega arith)
drop_two (x ∷ s) (suc i) n e = drop_two s i n e

drop_all : (s : List ℕ) (i : ℕ) → length (drop i s) ≡ 0 → drop i s ≡ []
drop_all s i e = empty (drop i s) e
  where
    empty : (t : List ℕ) → length t ≡ 0 → t ≡ []
    empty [] h = refl
    empty (x ∷ t) h = absurd (omega arith)

flatten-path_from :
    (rounds it : ℕ) (tweak : List ℕ)
    → length (drop (it * 2) tweak) ≡ rounds * 2
    → flatten (path_from rounds it tweak) ≡ drop (it * 2) tweak
unfolding path_from
flatten-path_from zero it tweak e = sym (drop_all tweak (it * 2) (omega arith))
flatten-path_from (suc rounds) it tweak e =
    let (read, left) = drop_two tweak (it * 2) (rounds * 2) (omega arith) in
    let next : suc (suc (it * 2)) ≡ (it + 1) * 2 = omega arith in
    let second : it * 2 + 1 ≡ suc (it * 2) = omega arith in
    let ih = flatten-path_from rounds (it + 1) tweak (rw next at left) in
    rw (second, ih, read, next) refl

flatten-whole : (t : List ℕ) → length t ≡ 32 → flatten (get_derivation_path_from_tweak t) ≡ t
unfolding get_derivation_path_from_tweak
flatten-whole t e =
    let whole : (length t == derivation_size) ≡ true = rw e refl in
    rw whole (flatten-path_from 16 0 t e)

-- The path of a tweak of 32 bytes has 16 children, and their bytes, one after the other, are
-- those of the tweak.
flatten-get_derivation_path :
    (tweak : List ℕ)
    → length tweak ≡ 32
    → (length (get_derivation_path_from_tweak tweak) ≡ 16)
      × (flatten (get_derivation_path_from_tweak tweak) ≡ tweak)
unfolding get_derivation_path_from_tweak
flatten-get_derivation_path tweak size =
    let whole : (length tweak == derivation_size) ≡ true = rw size refl in
    (rw whole refl, flatten-whole tweak size)
