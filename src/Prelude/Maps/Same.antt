-- ===== src/Prelude/Maps/Same.antt =====
-- When the equality test of two maps holds: exactly when they have the same value at every key.
use Prim.Native.Nat.{ℕ, suc, ◌≤◌}
use mathlib.Core.Path.{◌≡◌, refl, sym, ap, ◌∙◌}
use mathlib.Core.Bool.{Bool, true, false}
use mathlib.Core.Option.{Option, none, some}
use mathlib.Core.Logic.{◌↔◌, inl, inr}
use mathlib.Core.List.{[], ◌∷◌}
use native.Mathlib.Omega.{arith}
use kitsune.Prelude.Tests.{◌==◌, ==_iff, ==_refl, if◌then◌else◌, Bool-cases, Option-cases}
use kitsune.Prelude.Lists.{length}
use kitsune.Prelude.Maps.{Map, get, IsMap, same_option, entries_in, same_map}

module _ {ℓ} {V : Type ℓ} where
  -- The second map has what the first has.
  abbrev pub Within : Map V → Map V → Type ℓ
  Within a b = (k : ℕ) (v : V) → get k a ≡ some v → get k b ≡ some v

  without : ℕ → Map V → Map V
  without k [] = []
  without k ((j, v) ∷ m) = let rest = without k m in if j == k then m else (j, v) ∷ rest

  pub get-here : (k : ℕ) (v : V) (m : Map V) → get k ((k, v) ∷ m) ≡ some v
  unfolding get
  get-here k v m = rw (==_refl k)

  pub get-there : (j k : ℕ) (v : V) (m : Map V) → (k == j) ≡ false → get j ((k, v) ∷ m) ≡ get j m
  unfolding get
  get-there j k v m h = rw h

  length-without :
      (k : ℕ) (m : Map V) {v : V} → get k m ≡ some v → suc (length (without k m)) ≡ length m
  unfolding get without
  length-without k [] h = cc
  length-without k ((j, w) ∷ m) h = elim (Bool-cases (j == k)) [
    | inl e ↦ rw e
    | inr e ↦ rw e (ap suc (length-without k m (rw (e, get) at h)))
  ]

  get-without : (j k : ℕ) (m : Map V) → (k == j) ≡ false → get j (without k m) ≡ get j m
  unfolding get without
  get-without j k [] h = refl
  get-without j k ((i, w) ∷ m) h = ground (arith, get-without j k m h)

  get-without_self : (k : ℕ) (m : Map V) → IsMap m → get k (without k m) ≡ none
  unfolding get without
  get-without_self k [] h = refl
  get-without_self k ((j, w) ∷ m) (n, h) = elim (Bool-cases (j == k)) [
    | inl e ↦ rw e (ap (λ i. get i m) (sym ((==_iff j k).0 e)) ∙ n)
    | inr e ↦ rw (e, get, e) (get-without_self k m h)
  ]

  without-IsMap : (k : ℕ) (m : Map V) → IsMap m → IsMap (without k m)
  unfolding without
  without-IsMap k [] h = tt
  without-IsMap k ((j, w) ∷ m) (n, h) = elim (Bool-cases (j == k)) [
    | inl e ↦ rw e h
    | inr e ↦
        let e' : (k == j) ≡ false = ground arith in
        rw e (get-without j k m e' ∙ n, without-IsMap k m h)
  ]

  -- A key that a map lacks is not one that it has.
  key-ne : (j k : ℕ) (m : Map V) {w : V} → get k m ≡ none → get j m ≡ some w → (k == j) ≡ false
  key-ne j k m n h = elim (Bool-cases (k == j)) [
    | inl e ↦ let p : get k m ≡ get j m = ap (λ i. get i m) ((==_iff k j).0 e) in cc
    | inr e ↦ e
  ]

  nil-Within : (a b : Map V) → length b ≡ 0 → Within b a
  unfolding get
  nil-Within a [] e k v h = cc
  nil-Within a (p ∷ b) e k v h = absurd (omega arith)

  tail-Within :
      (k : ℕ) (v : V) (a b : Map V)
      → get k a ≡ none
      → Within ((k, v) ∷ a) b
      → Within a (without k b)
  tail-Within k v a b n h j w e =
      let d = key-ne j k a n e in get-without j k b d ∙ h j w (get-there j k v a d ∙ e)

  cons-Within :
      (k : ℕ) (v : V) (a b : Map V)
      → get k b ≡ some v
      → Within (without k b) a
      → Within b ((k, v) ∷ a)
  cons-Within k v a b e h j w g = elim (Bool-cases (k == j)) [
    | inl d ↦
        let p : k ≡ j = (==_iff k j).0 d in
        ap (λ i. get i ((k, v) ∷ a)) (sym p) ∙ get-here k v a ∙ sym e ∙ ap (λ i. get i b) p ∙ g
    | inr d ↦ get-there j k v a d ∙ h j w (get-without j k b d ∙ g)
  ]

  -- A map within another is no longer, and they agree where they are equally long.
  pub Within-length :
      (a b : Map V)
      → IsMap a
      → IsMap b
      → Within a b
      → (length a ≤ length b) × (length a ≡ length b → Within b a)
  Within-length [] b x y h = (omega arith, λ e. nil-Within [] b (sym e))
  Within-length ((k, v) ∷ a) b (n, x) y h =
      let e : get k b ≡ some v = h k v (get-here k v a) in
      let c = length-without k b e in
      let (le, back) =
        Within-length a (without k b) x (without-IsMap k b y) (tail-Within k v a b n h) in
      (omega arith, λ q. cons-Within k v a b e (back (omega arith)))

  module _ (eq : V → V → Bool) (eq_iff : (v w : V) → (eq v w ≡ true) ↔ (v ≡ w)) where
    some-same : (o : Option V) (v : V) → (same_option eq o (some v) ≡ true) ↔ (o ≡ some v)
    unfolding same_option
    some-same none v = (λ h. cc, λ h. cc)
    some-same (some w) v = (λ h. ap some ((eq_iff w v).0 h), λ h. (eq_iff w v).1 (cc))

    entries_in-Within : (a b : Map V) → entries_in eq a b ≡ true → Within a b
    unfolding entries_in get
    entries_in-Within [] b h j w e = cc
    entries_in-Within ((k, v) ∷ a) b h j w e =
        let g : same_option eq (get k b) (some v) ≡ true = ground arith in
        let t : entries_in eq a b ≡ true = ground arith in
        elim (Bool-cases (k == j)) [
          | inl d ↦
              let p : k ≡ j = (==_iff k j).0 d in
              let q : some v ≡ some w = rw (d, get) at e in
              ap (λ i. get i b) (sym p) ∙ (some-same (get k b) v).0 g ∙ q
          | inr d ↦ entries_in-Within a b t j w (sym (get-there j k v a d) ∙ e)
        ]

    Within-entries_in : (a b : Map V) → IsMap a → Within a b → entries_in eq a b ≡ true
    unfolding entries_in
    Within-entries_in [] b m h = refl
    Within-entries_in ((k, v) ∷ a) b (n, m) h =
        rw ((some-same (get k b) v).1 (h k v (get-here k v a)))
          (Within-entries_in a b m (λ j w e. h j w (get-there j k v a (key-ne j k a n e) ∙ e)))

    agree : (a b : Map V) → Within a b → Within b a → (k : ℕ) → get k a ≡ get k b
    agree a b h g k = elim (Option-cases (get k a)) [
      | inr (v, e) ↦ e ∙ sym (h k v e)
      | inl n ↦ elim (Option-cases (get k b)) [ inl o ↦ n ∙ sym o | inr (w, o) ↦ g k w o ∙ sym o ]
    ]

    -- The equality test of two maps holds exactly when they have the same value at every key.
    pub same_map_iff :
        (a b : Map V) → IsMap a → IsMap b → (same_map eq a b ≡ true) ↔ ((k : ℕ) → get k a ≡ get k b)
    unfolding same_map
    same_map_iff a b x y = (
      λ h.
          let l : length a ≡ length b = ground arith in
          let t : entries_in eq a b ≡ true = ground arith in
          let i = entries_in-Within a b t in agree a b i ((Within-length a b x y i).1 l),
      λ h.
          let i : Within a b = λ k v e. sym (h k) ∙ e in
          let j : Within b a = λ k v e. h k ∙ e in
          let l : length a ≡ length b =
            (let p = (Within-length a b x y i).0 in
              let q = (Within-length b a y x j).0 in omega arith) in
          ground (arith, Within-entries_in a b x i),
    )
