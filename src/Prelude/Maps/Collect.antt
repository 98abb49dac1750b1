-- ===== src/Prelude/Maps/Collect.antt =====
-- A map that is taken apart into its keys and values, and collected again.
use Prim.Native.Nat.{ℕ}
use mathlib.Core.Path.{◌≡◌, refl, sym, ap, ◌∙◌, subst}
use mathlib.Core.Bool.{true}
use mathlib.Core.Option.{none}
use mathlib.Core.Logic.{inl, inr}
use mathlib.Core.List.{[], ◌∷◌, ◌++◌, append_assoc, append-nil}
use kitsune.Prelude.Tests.{◌==◌, ==_iff, Bool-cases}
use kitsune.Prelude.Maps.{Map, zip, get, put, keys, values, collect_map, IsMap}

module _ {ℓ} {V : Type ℓ} where
  -- A key that a map lacks is put at its end.
  put-absent : (k : ℕ) (v : V) (m : Map V) → get k m ≡ none → put k v m ≡ m ++ (k, v) ∷ []
  unfolding put get
  put-absent k v [] h = refl
  put-absent k v ((j, w) ∷ m) h = elim (Bool-cases (j == k)) [
    | inl e ↦ absurd (let q = rw (e) at h in cc)
    | inr e ↦ rw e (ap (λ x. (j, w) ∷ x) (put-absent k v m (rw (e) at h)))
  ]

  -- What stands in front of a map with a key has not that key.
  get-append : (k : ℕ) (v : V) (a m : Map V) → IsMap (a ++ (k, v) ∷ m) → get k a ≡ none
  unfolding get
  get-append k v [] m h = refl
  get-append k v ((j, w) ∷ a) m (n, h) = elim (Bool-cases (j == k)) [
    | inl e ↦ absurd (clash a (ap (λ i. get i (a ++ (k, v) ∷ m)) (sym ((==_iff j k).0 e)) ∙ n))
    | inr e ↦ rw e (get-append k v a m h)
  ]
    where
      clash : (a : Map V) → ¬ (get k (a ++ (k, v) ∷ m) ≡ none)
      clash [] e = let q : (k == k) ≡ true = (==_iff k k).1 refl in let z = rw (q) at e in cc
      clash ((i, u) ∷ a) e = elim (Bool-cases (i == k)) [
        | inl d ↦ (let z = rw (d) at e in cc)
        | inr d ↦ clash a (rw (d) at e)
      ]

  collect_map-append :
      (m a : Map V) → IsMap (a ++ m) → collect_map (zip (keys m) (values m)) a ≡ a ++ m
  unfolding collect_map keys values zip
  collect_map-append [] a h = sym (append-nil a)
  collect_map-append ((k, v) ∷ m) a h =
      ap (collect_map (zip (keys m) (values m))) (put-absent k v a (get-append k v a m h))
      ∙ collect_map-append m (a ++ (k, v) ∷ [])
          (subst IsMap (sym (append_assoc a ((k, v) ∷ []) m)) h)
      ∙ append_assoc a ((k, v) ∷ []) m

  -- Collecting the keys and values of a map gives the map.
  pub collect_map-zip : (m : Map V) → IsMap m → collect_map (zip (keys m) (values m)) [] ≡ m
  collect_map-zip m h = collect_map-append m [] h
