-- ===== src/Arc/Overlap.antt =====
-- `overlaps` of crates/api/src/arc.rs: two arcs overlap when they share a location.
use kitsune.Prelude.{
  ℕ, ◌+◌, ◌%◌, ◌-◌, ◌≡◌, ◌↔◌, ◌⊎◌, ◌||◌, true, inl, inr, arith, Bool-cases, refl, ◌≢◌,
}
use native.Mathlib.Decide.{dec_le}
use kitsune.Prelude.Words.{u32_mod, IsU32}
use kitsune.Arc.{DhtArc, empty, arc, IsArc, contains, overlaps, Covers}
use kitsune.Arc.Distance.{contains-iff-Covers}

Covers-start : (s e : ℕ) → Covers (arc s e) s
Covers-start s e = omega arith

Covers-end : (s e : ℕ) → Covers (arc s e) e
Covers-end s e = omega arith

-- Two arcs that share a location: the start of one of them is in the other.
start_shared :
    (s e t f loc : ℕ)
    → IsU32 s
    → IsU32 e
    → IsU32 t
    → IsU32 f
    → IsU32 loc
    → Covers (arc s e) loc
    → Covers (arc t f) loc
    → Covers (arc s e) t ⊎ Covers (arc t f) s
start_shared s e t f loc vs ve vt vf vl p q =
    elim (dec_le ((t + u32_mod - s) % u32_mod) ((e + u32_mod - s) % u32_mod)) [
      | yes h ↦ inl h
      | no h ↦ inr (omega arith)
    ]

contains-start : (s e : ℕ) → IsU32 s → IsU32 e → contains (arc s e) s ≡ true
contains-start s e vs ve = (contains-iff-Covers (arc s e) s (vs, ve) vs).1 (Covers-start s e)

contains-end : (s e : ℕ) → IsU32 s → IsU32 e → contains (arc s e) e ≡ true
contains-end s e vs ve = (contains-iff-Covers (arc s e) e (vs, ve) ve).1 (Covers-end s e)

overlaps-contains :
    (s e t f : ℕ)
    → overlaps (arc s e) (arc t f) ≡ (
        contains (arc s e) t
        || contains (arc s e) f
        || contains (arc t f) s
        || contains (arc t f) e)
unfolding overlaps contains
overlaps-contains s e t f = refl

Shared : DhtArc → DhtArc → Type 0
Shared a b = (loc : ℕ) × IsU32 loc × (contains a loc ≡ true) × (contains b loc ≡ true)

module _ (s e t f : ℕ) (vs : IsU32 s) (ve : IsU32 e) (vt : IsU32 t) (vf : IsU32 f) where
  overlaps→shared : overlaps (arc s e) (arc t f) ≡ true → Shared (arc s e) (arc t f)
  unfolding Shared
  overlaps→shared h = elim (Bool-cases (contains (arc s e) t)) [
    | inl p ↦ (t, vt, p, contains-start t f vt vf)
    | inr np ↦ elim (Bool-cases (contains (arc s e) f)) [
      | inl p ↦ (f, vf, p, contains-end t f vt vf)
      | inr nq ↦ elim (Bool-cases (contains (arc t f) s)) [
        | inl p ↦ (s, vs, contains-start s e vs ve, p)
        | inr nr ↦ (e, ve, contains-end s e vs ve, ground (arith, overlaps-contains s e t f))
      ]
    ]
  ]

  shared→overlaps : Shared (arc s e) (arc t f) → overlaps (arc s e) (arc t f) ≡ true
  unfolding Shared
  shared→overlaps (loc, vl, p, q) =
      elim (start_shared s e t f loc vs ve vt vf vl
        ((contains-iff-Covers (arc s e) loc (vs, ve) vl).0 p)
        ((contains-iff-Covers (arc t f) loc (vt, vf) vl).0 q)) [
          | inl h ↦
              ground (
                arith,
                overlaps-contains s e t f,
                (contains-iff-Covers (arc s e) t (vs, ve) vt).1 h,
              )
          | inr h ↦
              ground (
                arith,
                overlaps-contains s e t f,
                (contains-iff-Covers (arc t f) s (vt, vf) vs).1 h,
              )
        ]

not_contains-empty : (loc : ℕ) → IsU32 loc → contains empty loc ≢ true
not_contains-empty loc vl h = (contains-iff-Covers empty loc tt vl).0 h

-- `overlaps` holds of two arcs exactly when there is a location that both of them contain.
pub overlaps-iff-shared :
    (a b : DhtArc)
    → IsArc a
    → IsArc b
    → (overlaps a b ≡ true)
      ↔ ((loc : ℕ) × IsU32 loc × (contains a loc ≡ true) × (contains b loc ≡ true))
unfolding Shared overlaps
overlaps-iff-shared empty b va vb = (λ h. cc, λ p. absurd (not_contains-empty p.0 p.1 p.2))
overlaps-iff-shared (arc s e) empty va vb = (λ h. cc, λ p. absurd (not_contains-empty p.0 p.1 p.3))
overlaps-iff-shared (arc s e) (arc t f) va vb =
    (overlaps→shared s e t f va.0 va.1 vb.0 vb.1, shared→overlaps s e t f va.0 va.1 vb.0 vb.1)
