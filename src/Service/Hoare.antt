-- ===== src/Service/Hoare.antt =====
-- What holds of every outcome of a step, by the calls that its code makes.
use mainstay.Prelude.{Bool, true, false, String, Option, none, some, List, [], ◌∷◌, if◌then◌else◌}
use mainstay.Prelude.Panic.{◌>>=◌, maybe}
use mainstay.Wire.{Wire, MsgTx, Result, ok, err}
use mainstay.Service.{AttestService, Effect, Outcome, set_failure, attempt, check, re_subscribe}
use mainstay.Service.Create.{signed_state}

abbrev pub After :
    {Hash : Type 0} → (AttestService Hash → List (Effect Hash) → Type 0) → Outcome Hash → Type 0
After P none = Unit {0}
After P (some (s, fx)) = P s fx

module _ {Hash : Type 0} (P : AttestService Hash → List (Effect Hash) → Type 0) where
  pub After-bind :
      {A : Type 0} (o : Option A) (f : A → Outcome Hash)
      → ((a : A) → After P (f a))
      → After P (o >>= f)
  After-bind none f h = tt
  After-bind (some a) f h = h a

  pub After-maybe :
      {A : Type 0} (o : Option A) (x : Outcome Hash) (f : A → Outcome Hash)
      → After P x
      → ((a : A) → After P (f a))
      → After P (maybe o x f)
  After-maybe none x f h k = h
  After-maybe (some a) x f h k = k a

  pub After-if :
      (b : Bool) (x y : Outcome Hash) → After P x → After P y → After P (if b then x else y)
  After-if true x y h k = h
  After-if false x y h k = k

  pub After-attempt :
      {A : Type 0} (a : Result A) (s : AttestService Hash) (fx : List (Effect Hash))
      (next : A → Outcome Hash)
      → ((e : String) → P (set_failure e s) fx)
      → ((x : A) → After P (next x))
      → After P (attempt a s fx next)
  unfolding attempt
  After-attempt (ok x) s fx next h k = k x
  After-attempt (err e) s fx next h k = h e

  pub After-check :
      (o : Option String) (s : AttestService Hash) (fx : List (Effect Hash)) (next : Outcome Hash)
      → ((e : String) → P (set_failure e s) fx)
      → After P next
      → After P (check o s fx next)
  unfolding check
  After-check none s fx next h k = k
  After-check (some e) s fx next h k = h e

  -- One property after the other.
  pub After-then :
      (Q : AttestService Hash → List (Effect Hash) → Type 0) (o : Outcome Hash)
      (f : AttestService Hash × List (Effect Hash) → Outcome Hash)
      → After Q o
      → ((t : AttestService Hash) (fx : List (Effect Hash)) → Q t fx → After P (f (t, fx)))
      → After P (o >>= f)
  After-then Q none f h k = tt
  After-then Q (some (t, fx)) f h k = k t fx h

-- The end of doStateSignAttestation.
pub After-signed :
    {Hash : Type 0}
    → ⦃w : Wire Hash⦄
    → (P : AttestService Hash → List (Effect Hash) → Type 0) (s : AttestService Hash)
      (x : Result (MsgTx Hash))
    → ((e : String) → P (set_failure e s) (re_subscribe ∷ []))
    → ((tx : MsgTx Hash) → After P (signed_state s (ok tx)))
    → After P (signed_state s x)
unfolding signed_state
After-signed P s (ok tx) h k = k tx
After-signed P s (err e) h k = h e

pub ruleset after = (After-signed, After-bind, After-maybe, After-if, After-attempt, After-check)
