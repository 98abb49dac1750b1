-- ===== src/Prelude/Maps/Select.antt =====
-- `select` twice, on lists one after the other, and how much it leaves.
use Prim.Native.Nat.{◌≤◌}
use mathlib.Core.Path.{◌≡◌, refl, ap}
use mathlib.Core.Bool.{Bool, true}
use mathlib.Core.Logic.{inl, inr}
use mathlib.Core.List.{List, [], ◌∷◌, ◌++◌}
use native.Mathlib.Omega.{arith}
use kitsune.Prelude.Tests.{Bool-cases}
use kitsune.Prelude.Lists.{length}
use kitsune.Prelude.Maps.{select}

module _ {ℓ} {A : Type ℓ} where
  -- A stronger test after a weaker one.
  pub select-select :
      (p q : A → Bool) (l : List A)
      → ((x : A) → q x ≡ true → p x ≡ true)
      → select q (select p l) ≡ select q l
  unfolding select
  select-select p q [] h = refl
  select-select p q (x ∷ l) h = elim (Bool-cases (p x)) [
    | inl e ↦ rw e (rw (select-select p q l h) refl)
    | inr e ↦ elim (Bool-cases (q x)) [
      | inl d ↦ absurd (let i = h x d in cc)
      | inr d ↦ rw (e, d) (select-select p q l h)
    ]
  ]

  pub select-append :
      (p : A → Bool) (xs ys : List A) → select p (xs ++ ys) ≡ (select p xs ++ select p ys)
  unfolding select
  select-append p [] ys = refl
  select-append p (x ∷ xs) ys = elim (Bool-cases (p x)) [
    | inl e ↦ rw e (ap (λ l. x ∷ l) (select-append p xs ys))
    | inr e ↦ rw e (select-append p xs ys)
  ]

  pub length-select : (p : A → Bool) (l : List A) → length (select p l) ≤ length l
  unfolding select
  length-select p [] = omega arith
  length-select p (x ∷ l) =
      let ih = length-select p l in
      elim (Bool-cases (p x)) [
        | inl e ↦ rw e (omega (arith, ih))
        | inr e ↦ rw e (omega (arith, ih))
      ]
