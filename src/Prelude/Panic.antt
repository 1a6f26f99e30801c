-- ===== src/Prelude/Panic.antt =====
-- Go code that may panic: `none` is a run-time panic, such as an index out of range, the
-- dereference of nil or a negative length given to `make`.
use Prim.Native.Nat.{ℕ}
use mathlib.Core.Option.{Option, none, some}
use mathlib.Core.Path.{◌≡◌, refl, subst}
use mathlib.Core.List.{List}
use mainstay.Prelude.Tests.{ltb, if◌then◌else◌}
use mainstay.Prelude.Lists.{length, set}

infixl 5 ◌>>=◌
abbrev pub ◌>>=◌ {ℓ κ} : {A : Type ℓ} {B : Type κ} → Option A → (A → Option B) → Option B
none >>= f = none
some a >>= f = f a

-- `a[i] = v`
abbrev pub store {ℓ} : {A : Type ℓ} → List A → ℕ → A → Option (List A)
store a i v = if ltb i (length a) then some (set a i v) else none

-- A value that may be missing.
abbrev pub maybe {ℓ κ} : {A : Type ℓ} {B : Type κ} → Option A → B → (A → B) → B
maybe none b f = b
maybe (some a) b f = f a

-- What a chain of binds gives, from its first part.
pub >>=-some {ℓ κ} :
    {A : Type ℓ} {B : Type κ} (o : Option A) (f : A → Option B) (b : B)
    → (o >>= f) ≡ some b
    → (a : A) × (o ≡ some a) × (f a ≡ some b)
>>=-some none f b h = absurd (none-some h)
  where
    none-some : none ≡ some b → ⊥
    none-some e = subst (λ o'. maybe o' (Unit {0}) (λ _. ⊥)) e tt
>>=-some (some a) f b h = (a, refl, h)

pub >>=-none {ℓ κ} :
    {A : Type ℓ} {B : Type κ} (o : Option A) (f : A → Option B)
    → ((a : A) → f a ≡ none)
    → (o >>= f) ≡ none
>>=-none none f h = refl
>>=-none (some a) f h = h a
