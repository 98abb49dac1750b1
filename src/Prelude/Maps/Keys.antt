-- ===== src/Prelude/Maps/Keys.antt =====
-- When the equality test of the key sets of two maps holds: exactly when they have the same keys.
use Prim.Native.Nat.{ℕ, suc}
use mathlib.Core.Path.{◌≡◌, refl, sym, ap, ◌∙◌}
use mathlib.Core.Bool.{Bool, true, false}
use mathlib.Core.Option.{Option, none, some}
use mathlib.Core.Logic.{◌↔◌, inl, inr}
use mathlib.Core.List.{[], ◌∷◌}
use native.Mathlib.Omega.{arith}
use kitsune.Prelude.Tests.{◌==◌, ==_iff, Bool-cases}
use kitsune.Prelude.Lists.{length}
use kitsune.Prelude.Maps.{Map, get, IsMap, is_some, member-keys, keys_in, same_keys}
use kitsune.Prelude.Maps.Same.{Within, get-here, get-there, Within-length}

absent : (o : Option (Unit {0})) → is_some o ≡ false → o ≡ none
absent none h = refl
absent (some v) h = cc

is_some_tt : (o : Option (Unit {0})) → is_some o ≡ true → o ≡ some tt
is_some_tt none h = cc
is_some_tt (some v) h = refl

both : (x y : Bool) → (x ≡ true → y ≡ true) → (y ≡ true → x ≡ true) → x ≡ y
both true true h k = refl
both false false h k = refl
both true false h k = sym (h refl)
both false true h k = k refl

module _ {ℓ} {V : Type ℓ} where
  -- A map without its values.
  forget : Map V → Map (Unit {0})
  forget [] = []
  forget ((k, v) ∷ m) = (k, tt) ∷ forget m

  length-forget : (m : Map V) → length (forget m) ≡ length m
  unfolding forget
  length-forget [] = refl
  length-forget ((k, v) ∷ m) = ap suc (length-forget m)

  get-forget : (k : ℕ) (m : Map V) → is_some (get k (forget m)) ≡ is_some (get k m)
  unfolding forget get
  get-forget k [] = refl
  get-forget k ((j, v) ∷ m) = ground (arith, get-forget k m)

  forget-IsMap : (m : Map V) → IsMap m → IsMap (forget m)
  unfolding forget
  forget-IsMap [] h = tt
  forget-IsMap ((k, v) ∷ m) (n, h) =
      (absent (get k (forget m)) (get-forget k m ∙ ap is_some n), forget-IsMap m h)

  -- A key of the one map is a key of the other.
  KeysIn : Map V → Map V → Type 0
  KeysIn a b = (k : ℕ) → is_some (get k a) ≡ true → is_some (get k b) ≡ true

  keys_in-KeysIn : (a b : Map V) → keys_in a b ≡ true → KeysIn a b
  unfolding keys_in KeysIn get
  keys_in-KeysIn [] b h k e = cc
  keys_in-KeysIn ((j, v) ∷ a) b h k e =
      let g : is_some (get j b) ≡ true = ground (arith, member-keys j b) in
      let t : keys_in a b ≡ true = ground arith in
      elim (Bool-cases (j == k)) [
        | inl d ↦ ap (λ i. is_some (get i b)) (sym ((==_iff j k).0 d)) ∙ g
        | inr d ↦ keys_in-KeysIn a b t k (rw (d, get) at e)
      ]

  KeysIn-keys_in : (a b : Map V) → KeysIn a b → keys_in a b ≡ true
  unfolding keys_in KeysIn
  KeysIn-keys_in [] b h = refl
  KeysIn-keys_in ((j, v) ∷ a) b h =
      let p = h j (ap is_some (get-here j v a)) in
      rw (member-keys, p) (KeysIn-keys_in a b (λ k e. h k (later k e)))
    where
      later : (k : ℕ) → is_some (get k a) ≡ true → is_some (get k ((j, v) ∷ a)) ≡ true
      later k e = elim (Bool-cases (j == k)) [
        | inl d ↦
            ap (λ i. is_some (get i ((j, v) ∷ a))) (sym ((==_iff j k).0 d))
            ∙ ap is_some (get-here j v a)
        | inr d ↦ ap is_some (get-there k j v a d) ∙ e
      ]

  KeysIn-Within : (a b : Map V) → KeysIn a b → Within (forget a) (forget b)
  unfolding KeysIn
  KeysIn-Within a b h k v e =
      is_some_tt (get k (forget b)) (get-forget k b ∙ h k (sym (get-forget k a) ∙ ap is_some e))

  Within-KeysIn : (a b : Map V) → Within (forget a) (forget b) → KeysIn a b
  unfolding KeysIn
  Within-KeysIn a b h k e =
      sym (get-forget k b)
      ∙ ap is_some (h k tt (is_some_tt (get k (forget a)) (get-forget k a ∙ e)))

  -- The equality test of two sets of keys holds exactly when the same keys are in both maps.
  pub same_keys_iff :
      (a b : Map V)
      → IsMap a
      → IsMap b
      → (same_keys a b ≡ true) ↔ ((k : ℕ) → is_some (get k a) ≡ is_some (get k b))
  unfolding same_keys KeysIn
  same_keys_iff a b x y = (
    λ h k.
        let l : length a ≡ length b = ground arith in
        let i = keys_in-KeysIn a b (ground arith) in
        let j = Within-KeysIn b a (
          (Within-length (forget a) (forget b) (forget-IsMap a x) (forget-IsMap b y)
              (KeysIn-Within a b i)).1
            (length-forget a ∙ l ∙ sym (length-forget b))) in
        both (is_some (get k a)) (is_some (get k b)) (i k) (j k),
    λ h.
        let i : KeysIn a b = λ k e. sym (h k) ∙ e in
        let j : KeysIn b a = λ k e. h k ∙ e in
        let p =
          (Within-length (forget a) (forget b) (forget-IsMap a x) (forget-IsMap b y)
            (KeysIn-Within a b i)).0 in
        let q =
          (Within-length (forget b) (forget a) (forget-IsMap b y) (forget-IsMap a x)
            (KeysIn-Within b a j)).0 in
        let l : length a ≡ length b = omega (arith, length-forget a, length-forget b) in
        ground (arith, KeysIn-keys_in a b i),
  )
