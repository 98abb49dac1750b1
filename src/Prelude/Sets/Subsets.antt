-- ===== src/Prelude/Sets/Subsets.antt =====
-- A set of numbers without its first member, and the intersection of two sets.
use Prim.Native.Nat.{ℕ, ◌≤◌, ◌<◌}
use mathlib.Core.Path.{◌≡◌, ap}
use mathlib.Core.Bool.{true, false}
use mathlib.Core.Logic.{inl, inr}
use mathlib.Core.List.{List, [], ◌∷◌}
use native.Mathlib.Omega.{arith}
use kitsune.Prelude.Tests.{◌==◌, ==_iff, Bool-cases}
use kitsune.Prelude.Lists.{length, All}
use kitsune.Prelude.Sets.{
  member, intersection, count_below, IsSetBelow, member-intersection, count-ext, count-cons_lt,
  count_below-nil,
}

-- A member that stands in the rest already adds none.
count-cons_in : (n x : ℕ) (s : List ℕ) → member x s ≡ true → count_below n (x ∷ s) ≡ count_below n s
unfolding member
count-cons_in n x s m = count-ext n (x ∷ s) s (λ k l. elim (Bool-cases (x == k)) [
  | inl e ↦ ground (arith, m, ap (λ t. member t s) ((==_iff x k).0 e))
  | inr e ↦ ground (arith)
])

count-length : (n : ℕ) (s : List ℕ) → All (λ x. x < n) s → count_below n s ≤ length s
count-length n [] h = omega (arith, count_below-nil n)
count-length n (x ∷ s) (h, hs) =
    let ih = count-length n s hs in
    elim (Bool-cases (member x s)) [
      | inl e ↦ omega (arith, ih, count-cons_in n x s e)
      | inr e ↦ omega (arith, ih, count-cons_lt n x s h e)
    ]

cons-IsSetBelow :
    (n x : ℕ) (s : List ℕ) → x < n → member x s ≡ false → IsSetBelow n s → IsSetBelow n (x ∷ s)
cons-IsSetBelow n x s h m v = record {
  below = (h, v.below);
  distinct = omega (arith, count-cons_lt n x s h m, v.distinct);
}

first-new : (n x : ℕ) (s : List ℕ) → IsSetBelow n (x ∷ s) → member x s ≡ false
first-new n x s v = elim (Bool-cases (member x s)) [
  | inl e ↦ absurd (omega (arith, count-cons_in n x s e, count-length n s v.below.1, v.distinct))
  | inr e ↦ e
]

rest-IsSetBelow : (n x : ℕ) (s : List ℕ) → IsSetBelow n (x ∷ s) → IsSetBelow n s
rest-IsSetBelow n x s v = record {
  below = v.below.1;
  distinct = omega (arith, count-cons_lt n x s v.below.0 (first-new n x s v), v.distinct);
}

pub intersection-IsSetBelow :
    (n : ℕ) (a b : List ℕ) → IsSetBelow n a → IsSetBelow n (intersection a b)
unfolding intersection
intersection-IsSetBelow n [] b v = v
intersection-IsSetBelow n (x ∷ a) b v =
    let ih = intersection-IsSetBelow n a b (rest-IsSetBelow n x a v) in
    elim (Bool-cases (member x b)) [
      | inl e ↦
          let m = member-intersection x a b in
          rw e (
            cons-IsSetBelow n x (intersection a b) v.below.0 (ground (arith, m, first-new n x a v))
              ih)
      | inr e ↦ rw e ih
    ]
