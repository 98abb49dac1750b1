-- ===== src/Prelude/Maps/Sizes.antt =====
-- How many keys a map has after `put` and `remove`, and what `remove` leaves.
use Prim.Native.Nat.{ℕ, suc, ◌≤◌}
use mathlib.Core.Path.{◌≡◌, refl, ap, ◌∙◌}
use mathlib.Core.Bool.{false}
use mathlib.Core.Option.{none, some}
use mathlib.Core.Logic.{inl, inr}
use mathlib.Core.List.{[], ◌∷◌}
use native.Mathlib.Omega.{arith}
use kitsune.Prelude.Tests.{◌==◌, if◌then◌else◌, Bool-cases}
use kitsune.Prelude.Lists.{length}
use kitsune.Prelude.Maps.{Map, get, put, remove, is_some, IsMap}

module _ {ℓ} {V : Type ℓ} where
  pub length-put_new :
      (k : ℕ) (v : V) (m : Map V) → is_some (get k m) ≡ false → length (put k v m) ≡ suc (length m)
  unfolding put get
  length-put_new k v [] h = refl
  length-put_new k v ((j, w) ∷ m) h = elim (Bool-cases (j == k)) [
    | inl e ↦ absurd (let q = rw (e) at h in cc)
    | inr e ↦ rw e (ap suc (length-put_new k v m (rw (e) at h)))
  ]

  pub length-put_old :
      (k : ℕ) (v w : V) (m : Map V) → get k m ≡ some w → length (put k v m) ≡ length m
  unfolding put get
  length-put_old k v w [] h = cc
  length-put_old k v w ((j, u) ∷ m) h = elim (Bool-cases (j == k)) [
    | inl e ↦ rw e refl
    | inr e ↦ rw e (ap suc (length-put_old k v w m (rw (e) at h)))
  ]

  pub length-remove : (k : ℕ) (m : Map V) → length (remove k m) ≤ length m
  unfolding remove
  length-remove k [] = omega arith
  length-remove k ((j, v) ∷ m) =
      let ih = length-remove k m in
      elim (Bool-cases (j == k)) [
        | inl e ↦ rw e (omega (arith, ih))
        | inr e ↦ rw e (omega (arith, ih))
      ]

  pub get-remove : (j k : ℕ) (m : Map V) → get j (remove k m) ≡ (if k == j then none else get j m)
  unfolding get remove
  get-remove j k [] = ground arith
  get-remove j k ((i, v) ∷ m) = ground (arith, get-remove j k m)

  pub remove-IsMap : (k : ℕ) (m : Map V) → IsMap m → IsMap (remove k m)
  unfolding remove
  remove-IsMap k [] h = tt
  remove-IsMap k ((j, v) ∷ m) (n, h) = elim (Bool-cases (j == k)) [
    | inl e ↦ rw e (remove-IsMap k m h)
    | inr e ↦
        let e' : (k == j) ≡ false = ground arith in
        rw e (get-remove j k m ∙ (rw e' n), remove-IsMap k m h)
  ]
