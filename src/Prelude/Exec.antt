-- ===== src/Prelude/Exec.antt =====
-- Methods that change an object and may fail: what was written before an early `return Err` stays
-- written, so the state comes back beside every outcome.
use mathlib.Core.Path.{◌≡◌, refl, ap}
use kitsune.Prelude.Outcome.{Outcome, ok, err, panic}

abbrev pub Exec : Type 0 → Type 0 → Type 0
Exec S A = S → Outcome A × S

module _ {S A : Type 0} where
  abbrev pub pure : A → Exec S A
  pure a s = (ok a, s)

  -- A fallible computation that leaves the state alone.
  abbrev pub lift : Outcome A → Exec S A
  lift r s = (r, s)

  -- A fallible read of the state.
  abbrev pub reads : (S → Outcome A) → Exec S A
  reads f s = (f s, s)

module _ {S : Type 0} where
  abbrev pub modify : (S → S) → Exec S (Unit {0})
  modify f s = (ok tt, f s)

module _ {S A B : Type 0} where
  abbrev pub continue : Outcome A → (A → Exec S B) → Exec S B
  continue (ok a) f s = f a s
  continue (err e) f s = (err e, s)
  continue panic f s = (panic, s)

  infixl 5 ◌>>=◌ ◌>>◌
  abbrev pub ◌>>=◌ : Exec S A → (A → Exec S B) → Exec S B
  ◌>>=◌ m f s = let (r, s') = m s in continue r f s'

  abbrev pub ◌>>◌ : Exec S A → Exec S B → Exec S B
  m >> n = m >>= λ _. n

-- Every outcome of a step keeps `P`, if the steps after it do from each value that it returns.
pub continue-keeps {ℓ} :
    {S A B : Type 0} (P : S → Type ℓ) (r : Outcome A) (f : A → Exec S B) (s : S)
    → P s
    → ((a : A) → r ≡ ok a → P (f a s).1)
    → P (continue r f s).1
continue-keeps P (ok a) f s h k = k a refl
continue-keeps P (err e) f s h k = h
continue-keeps P panic f s h k = h

-- A step that succeeded as a whole succeeded in its first part.
pub continue-ok :
    {S A B : Type 0} (r : Outcome A) (f : A → Exec S B) (s : S) {b : B}
    → (continue r f s).0 ≡ ok b
    → (a : A) × (r ≡ ok a) × ((f a s).0 ≡ ok b)
continue-ok (ok a) f s h = (a, refl, h)
continue-ok (err e) f s h = cc
continue-ok panic f s h = cc

pub continue-eq :
    {S A B : Type 0} {r : Outcome A} (f : A → Exec S B) (s : S) {a : A}
    → r ≡ ok a
    → continue r f s ≡ f a s
continue-eq f s h = ap (λ x. continue x f s) h
