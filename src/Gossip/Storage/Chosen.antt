-- ===== src/Gossip/Storage/Chosen.antt =====
-- How the new storage arc is chosen among the arcs that it may be (crates/gossip/src/storage_arc.rs).
use mathlib.Core.Path.{subst}
use mathlib.Core.Option.{some-injective}
use kitsune.Prelude.{
  ◌&&◌, Bool, true, false, some, List, [], ◌∷◌, All, ltb, if◌then◌else◌, Bool-cases, Option-cases,
  inl, inr, ◌≡◌, refl, ◌∙◌, arith,
}
use kitsune.Arc.{DhtArc, empty, arc, full, arc_span, overlaps}
use kitsune.Gossip.Storage.{same_arc, widest, grown, full_one}

same_arc-eq : (a b : DhtArc) → same_arc a b ≡ true → a ≡ b
same_arc-eq empty empty h = refl
same_arc-eq empty (arc s e) h = absurd cc
same_arc-eq (arc s e) empty h = absurd cc
same_arc-eq (arc s e) (arc s' e') h =
    let p : s ≡ s' = ground arith in let q : e ≡ e' = ground arith in cc

-- What is true of every arc of a list is true of the one chosen.
module _ (P : DhtArc → Type 0) where
  widest-All : (arcs : List DhtArc) → All P arcs → (a : DhtArc) → widest arcs ≡ some a → P a
  unfolding widest
  widest-All [] h a e = absurd cc
  widest-All (b ∷ arcs) (h, hs) a e = elim (Option-cases (widest arcs)) [
    | inl n ↦ let q = rw (n) at e in subst P (some-injective _ _ q) h
    | inr (c, m) ↦ elim (Bool-cases (ltb (arc_span c) (arc_span b))) [
      | inl t ↦ let q = rw (m, t) at e in subst P (some-injective _ _ q) h
      | inr t ↦ let q = rw (m, t) at e in subst P (some-injective _ _ q) (widest-All arcs hs c m)
    ]
  ]

  grown-All :
      (current : DhtArc) (arcs : List DhtArc)
      → All P arcs
      → (a : DhtArc) → grown current arcs ≡ some a
      → P a
  unfolding grown
  grown-All current [] h a e = absurd cc
  grown-All current (b ∷ arcs) (h, hs) a e =
      elim (Bool-cases (ltb (arc_span current) (arc_span b) && overlaps b current)) [
        | inl t ↦ let q = rw (t) at e in subst P (some-injective _ _ q) h
        | inr t ↦ grown-All current arcs hs a (rw (t) at e)
      ]

  full_one-All : (arcs : List DhtArc) → All P arcs → (a : DhtArc) → full_one arcs ≡ some a → P a
  unfolding full_one
  full_one-All [] h a e = absurd cc
  full_one-All (b ∷ arcs) (h, hs) a e = elim (Bool-cases (same_arc b full)) [
    | inl t ↦ let q = rw (t) at e in subst P (same_arc-eq b full t ∙ some-injective _ _ q) h
    | inr t ↦ full_one-All arcs hs a (rw (t) at e)
  ]

  pub chosen-All :
      (sharding : Bool) (current : DhtArc) (arcs : List DhtArc)
      → All P arcs
      → (a : DhtArc)
      → (if sharding
          then (if same_arc current empty then widest arcs else grown current arcs)
          else full_one arcs)
        ≡ some a
      → P a
  chosen-All false current arcs h a e = full_one-All arcs h a e
  chosen-All true current arcs h a e = elim (Bool-cases (same_arc current empty)) [
    | inl t ↦ widest-All arcs h a (rw (t) at e)
    | inr t ↦ grown-All current arcs h a (rw (t) at e)
  ]
