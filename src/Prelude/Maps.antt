-- ===== src/Prelude/Maps.antt =====
-- `HashMap`s and `BTreeMap`s with number keys as lists of pairs, no key twice. Their order stands for
-- the order of iteration, which nothing proved of them depends on.
pub mod Same
pub mod Keys
pub mod Collect
pub mod Sizes
pub mod Select
use Prim.Native.Nat.{ℕ}
use mathlib.Core.Path.{◌≡◌, refl, sym, ap, ◌∙◌}
use mathlib.Core.Bool.{Bool, true, false, ◌&&◌, ◌||◌, not}
use mathlib.Core.Option.{Option, none, some}
use mathlib.Core.Logic.{◌↔◌, inl, inr}
use mathlib.Core.List.{List, [], ◌∷◌, ◌++◌, map}
use native.Mathlib.Omega.{arith}
use kitsune.Prelude.Tests.{◌==◌, ==_iff, ==_refl, if◌then◌else◌, Bool-cases, Option-cases}
use kitsune.Prelude.Lists.{length}
use kitsune.Prelude.Sets.{member}

-- `iter().filter(p)`
unfoldable pub select {ℓ} : {A : Type ℓ} → (A → Bool) → List A → List A
select p [] = []
select p (x ∷ xs) = let rest = select p xs in if p x then x ∷ rest else rest

pub member-select :
    (p : ℕ → Bool) (k : ℕ) (l : List ℕ) → member k (select p l) ≡ (member k l && p k)
unfolding select member
member-select p k [] = refl
member-select p k (x ∷ xs) = elim (Bool-cases (x == k)) [
  | inl e ↦ ground (arith, member-select p k xs, ap p ((==_iff x k).0 e))
  | inr e ↦ ground (arith, member-select p k xs)
]

pub member-append : (k : ℕ) (xs ys : List ℕ) → member k (xs ++ ys) ≡ (member k xs || member k ys)
unfolding member
member-append k [] ys = refl
member-append k (x ∷ xs) ys = ground (arith, member-append k xs ys)

unfoldable pub zip {ℓ κ} : {A : Type ℓ} {B : Type κ} → List A → List B → List (A × B)
zip [] ys = []
zip (x ∷ xs) [] = []
zip (x ∷ xs) (y ∷ ys) = (x, y) ∷ zip xs ys

abbrev pub Map {ℓ} : Type ℓ → Type ℓ
Map V = List (ℕ × V)

module _ {ℓ} {V : Type ℓ} where
  unfoldable pub get : ℕ → Map V → Option V
  get k [] = none
  get k ((j, v) ∷ m) = if j == k then some v else get k m

  unfoldable pub put : ℕ → V → Map V → Map V
  put k v [] = (k, v) ∷ []
  put k v ((j, w) ∷ m) = let rest = put k v m in if j == k then (k, v) ∷ m else (j, w) ∷ rest

  unfoldable pub remove : ℕ → Map V → Map V
  remove k [] = []
  remove k ((j, v) ∷ m) = let rest = remove k m in if j == k then rest else (j, v) ∷ rest

  unfoldable pub keys : Map V → List ℕ
  keys [] = []
  keys ((k, v) ∷ m) = k ∷ keys m

  -- `values()`, in the order of `keys()`
  unfoldable pub values : Map V → List V
  values [] = []
  values ((k, v) ∷ m) = v ∷ values m

  -- `collect()` into a map
  unfoldable pub collect_map : List (ℕ × V) → Map V → Map V
  collect_map [] out = out
  collect_map ((k, v) ∷ l) out = collect_map l (put k v out)

  abbrev pub is_some : Option V → Bool
  is_some none = false
  is_some (some v) = true

  -- No key stands twice.
  abbrev pub IsMap : Map V → Type ℓ
  IsMap [] = Unit
  IsMap ((k, v) ∷ m) = (get k m ≡ none) × IsMap m

  pub get-put :
      (j k : ℕ) (v : V) (m : Map V) → get j (put k v m) ≡ (if k == j then some v else get j m)
  unfolding get put
  get-put j k v [] = refl
  get-put j k v ((i, w) ∷ m) = ground (arith, get-put j k v m)

  pub put-IsMap : (k : ℕ) (v : V) (m : Map V) → IsMap m → IsMap (put k v m)
  unfolding put get
  put-IsMap k v [] h = (refl, tt)
  put-IsMap k v ((j, w) ∷ m) (n, h) = elim (Bool-cases (j == k)) [
    | inl e ↦ rw e (ap (λ i. get i m) (sym ((==_iff j k).0 e)) ∙ n, h)
    | inr e ↦
        let e' : (k == j) ≡ false = ground arith in
        rw e (get-put j k v m ∙ (rw e' n), put-IsMap k v m h)
  ]

  pub member-keys : (k : ℕ) (m : Map V) → member k (keys m) ≡ is_some (get k m)
  unfolding get keys member
  member-keys k [] = refl
  member-keys k ((j, v) ∷ m) = ground (arith, member-keys k m)

  -- `a.keys().symmetric_difference(b.keys())`
  unfoldable pub sym_difference : Map V → Map V → List ℕ
  sym_difference a b =
      select (λ k. not (member k (keys b))) (keys a)
      ++ select (λ k. not (member k (keys a))) (keys b)

  -- `a.keys().intersection(b.keys())`
  unfoldable pub common_keys : Map V → Map V → List ℕ
  common_keys a b = select (λ k. member k (keys b)) (keys a)

  pub member-sym_difference :
      (a b : Map V) (k : ℕ)
      → member k (sym_difference a b) ≡ (
          is_some (get k a) && not (is_some (get k b))
          || is_some (get k b) && not (is_some (get k a)))
  unfolding sym_difference
  member-sym_difference a b k = simp (member-append, member-select, member-keys)

  pub member-common_keys :
      (a b : Map V) (k : ℕ) → member k (common_keys a b) ≡ (is_some (get k a) && is_some (get k b))
  unfolding common_keys
  member-common_keys a b k = simp (member-select, member-keys)

  -- Which keys two maps have is the same, by the test of two sets.
  unfoldable pub keys_in : Map V → Map V → Bool
  keys_in [] b = true
  keys_in ((k, v) ∷ a) b = member k (keys b) && keys_in a b

  unfoldable pub same_keys : Map V → Map V → Bool
  same_keys a b = length a == length b && keys_in a b

  module _ (eq : V → V → Bool) where
    unfoldable pub same_option : Option V → Option V → Bool
    same_option none none = true
    same_option (some v) (some w) = eq v w
    same_option none (some w) = false
    same_option (some v) none = false

    -- Every entry of the first map is in the second.
    unfoldable pub entries_in : Map V → Map V → Bool
    entries_in [] b = true
    entries_in ((k, v) ∷ a) b = same_option (get k b) (some v) && entries_in a b

    -- `a == b`
    unfoldable pub same_map : Map V → Map V → Bool
    same_map a b = length a == length b && entries_in a b

    -- Whether both maps have the key, with different values.
    unfoldable pub values_differ : Map V → Map V → ℕ → Bool
    values_differ a b k =
        is_some (get k a) && is_some (get k b) && not (same_option (get k a) (get k b))

    -- The keys of one map only, then the common keys whose values differ.
    unfoldable pub mismatched_keys : Map V → Map V → List ℕ
    mismatched_keys a b = sym_difference a b ++ select (values_differ a b) (common_keys a b)

    differing :
        (o p : Option V)
        → (is_some o && not (is_some p)
            || is_some p && not (is_some o)
            || is_some o && is_some p && (is_some o && is_some p && not (same_option o p)))
          ≡ not (same_option o p)
    unfolding same_option
    differing none none = refl
    differing none (some w) = refl
    differing (some v) none = refl
    differing (some v) (some w) = refl

    -- A key is mismatched exactly when the two maps differ at it.
    pub member-mismatched_keys :
        (a b : Map V) (k : ℕ)
        → member k (mismatched_keys a b) ≡ not (same_option (get k a) (get k b))
    unfolding mismatched_keys values_differ sym_difference common_keys
    member-mismatched_keys a b k =
        simp (member-append, member-select, member-keys) (differing (get k a) (get k b))
