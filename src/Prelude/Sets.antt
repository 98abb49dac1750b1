-- ===== src/Prelude/Sets.antt =====
-- `HashSet<u32>` and `BTreeSet` values as lists: `insert` keeps them free of duplicates, and nothing
-- proved of them depends on the order.
pub mod Subsets
use Prim.Native.Nat.{ℕ, zero, suc, ◌+◌, ◌≤◌, ◌<◌}
use mathlib.Core.Path.{◌≡◌, refl, ap, sym, ◌∙◌}
use mathlib.Core.Bool.{Bool, true, false, ◌&&◌, ◌||◌, not}
use mathlib.Core.Logic.{inl, inr}
use native.Mathlib.Decide.{ℕ_discrete}
use mathlib.Core.List.{List, [], ◌∷◌}
use native.Mathlib.Omega.{arith}
use kitsune.Prelude.Tests.{◌==◌, ==_iff, if◌then◌else◌, Bool-cases}
use kitsune.Prelude.Lists.{length, All}

unfoldable pub member : ℕ → List ℕ → Bool
member k [] = false
member k (x ∷ xs) = x == k || member k xs

unfoldable pub insert : ℕ → List ℕ → List ℕ
insert x s = if member x s then s else x ∷ s

unfoldable pub remove : ℕ → List ℕ → List ℕ
remove x [] = []
remove x (y ∷ ys) = let rest = remove x ys in if y == x then rest else y ∷ rest

-- `a.intersection(&b)`
unfoldable pub intersection : List ℕ → List ℕ → List ℕ
intersection [] b = []
intersection (x ∷ xs) b = let rest = intersection xs b in if member x b then x ∷ rest else rest

-- How many of the numbers below `n` are members.
unfoldable pub count_below : ℕ → List ℕ → ℕ
count_below zero s = 0
count_below (suc n) s = (if member n s then 1 else 0) + count_below n s

-- The members are below `n`, and none is listed twice.
pub record IsSetBelow (n : ℕ) (s : List ℕ) : Type 0 where
  pub below : All (λ x. x < n) s
  pub distinct : length s ≡ count_below n s

pub member-insert : (x k : ℕ) (s : List ℕ) → member k (insert x s) ≡ (x == k || member k s)
unfolding insert member
member-insert x k s = elim (Bool-cases (member x s)) [
  | inl h ↦ rw h (elim (Bool-cases (x == k)) [
    | inl e ↦ rw e (ap (λ t. member t s) (sym ((==_iff x k).0 e)) ∙ h)
    | inr e ↦ rw e
  ])
  | inr h ↦ rw h
]

pub member-remove : (x k : ℕ) (s : List ℕ) → member k (remove x s) ≡ (member k s && not (x == k))
unfolding remove member
member-remove x k [] = refl
member-remove x k (y ∷ ys) = ground (arith, member-remove x k ys)

pub member-intersection :
    (k : ℕ) (a b : List ℕ) → member k (intersection a b) ≡ (member k a && member k b)
unfolding intersection member
member-intersection k [] b = refl
member-intersection k (x ∷ xs) b = elim (Bool-cases (x == k)) [
  | inl e ↦ (ground (arith, member-intersection k xs b, ap (λ t. member t b) ((==_iff x k).0 e)))
  | inr e ↦ ground (arith, member-intersection k xs b)
]

pub member-lt : (n k : ℕ) (s : List ℕ) → All (λ x. x < n) s → member k s ≡ true → k < n
unfolding member
member-lt n k [] h m = cc
member-lt n k (x ∷ xs) h m = ground (arith, member-lt n k xs h.1)

count-cons_ge : (n x : ℕ) (s : List ℕ) → n ≤ x → count_below n (x ∷ s) ≡ count_below n s
unfolding count_below member
count-cons_ge zero x s h = refl
count-cons_ge (suc n) x s h = ground (arith, count-cons_ge n x s)

count-cons_lt :
    (n x : ℕ) (s : List ℕ)
    → x < n
    → member x s ≡ false
    → count_below n (x ∷ s) ≡ suc (count_below n s)
unfolding count_below member
count-cons_lt zero x s h m = absurd (omega arith)
count-cons_lt (suc n) x s h m = elim (ℕ_discrete x n) [
  | yes e ↦ ground (arith, count-cons_ge n x s, ap (λ t. member t s) e)
  | no ne ↦ ground (arith, count-cons_lt n x s (omega arith) m)
]

pub insert-IsSetBelow : (n x : ℕ) (s : List ℕ) → x < n → IsSetBelow n s → IsSetBelow n (insert x s)
unfolding insert
insert-IsSetBelow n x s h v = elim (Bool-cases (member x s)) [
  | inl e ↦ rw e v
  | inr e ↦ rw e (record {
    below = (h, v.below);
    distinct = omega (arith, count-cons_lt n x s h e, v.distinct);
  })
]

count-le : (n : ℕ) (s : List ℕ) → count_below n s ≤ n
unfolding count_below
count-le zero s = omega arith
count-le (suc n) s = ground (arith, count-le n s)

count-full : (n k : ℕ) (s : List ℕ) → count_below n s ≡ n → k < n → member k s ≡ true
unfolding count_below
count-full zero k s e h = absurd (omega arith)
count-full (suc n) k s e h = elim (ℕ_discrete k n) [
  | yes p ↦ ground (arith, count-le n s, ap (λ t. member t s) p)
  | no np ↦ ground (arith, count-le n s, count-full n k s)
]

-- A set of `n` numbers below `n` holds every one of them.
pub full-member : (n k : ℕ) (s : List ℕ) → IsSetBelow n s → length s ≡ n → k < n → member k s ≡ true
full-member n k s v e h = count-full n k s (omega (arith, v.distinct)) h

-- Sets with the same members have the same size.
pub count-ext :
    (n : ℕ) (s t : List ℕ)
    → ((k : ℕ) → k < n → member k s ≡ member k t)
    → count_below n s ≡ count_below n t
unfolding count_below
count-ext zero s t h = refl
count-ext (suc n) s t h = rw (h n (omega arith), count-ext n s t (λ k p. h k (omega arith)))

count_below-nil : (n : ℕ) → count_below n [] ≡ 0
unfolding count_below member
count_below-nil zero = refl
count_below-nil (suc n) = omega (arith, count_below-nil n)

pub IsSetBelow-nil : (n : ℕ) → IsSetBelow n []
IsSetBelow-nil n = record { below = tt; distinct = sym (count_below-nil n) }
