-- ===== src/Arc/Distance.antt =====
-- `dist`, `contains` and `arc_span` of crates/api/src/arc.rs against the circle of locations.
use kitsune.Prelude.{
  ℕ, ◌+◌, ◌%◌, ◌-◌, ◌≤◌, ◌<◌, min, true, false, leb, ◌≡◌, ◌↔◌, arith, if◌then◌else◌, ◌∙◌, sym, inl,
  inr, Bool-cases, leb→le,
}
use native.Mathlib.Decide.{dec_le}
use kitsune.Prelude.Words.{u32_mod, IsU32}
use kitsune.Arc.{DhtArc, empty, arc, IsArc, dist, contains, arc_span, Covers}

-- The number of steps between two locations, the shorter way round.
abbrev pub circle : ℕ → ℕ → ℕ
circle a b = min ((a + u32_mod - b) % u32_mod) ((b + u32_mod - a) % u32_mod)

-- `contains` holds of a location exactly when it is met on the way up from the start of the arc to
-- its end; nothing is contained in the empty arc.
pub contains-iff-Covers :
    (a : DhtArc) (loc : ℕ) → IsArc a → IsU32 loc → (contains a loc ≡ true) ↔ Covers a loc
unfolding contains
contains-iff-Covers empty loc va vl = ground arith
contains-iff-Covers (arc s e) loc va vl = ground arith

dist_inside :
    (s e loc : ℕ)
    → IsU32 s
    → IsU32 e
    → IsU32 loc
    → Covers (arc s e) loc
    → dist (arc s e) loc ≡ circle loc loc
unfolding dist
dist_inside s e loc vs ve vl h = ground arith

dist_outside :
    (s e loc : ℕ)
    → IsU32 s
    → IsU32 e
    → IsU32 loc
    → ¬ Covers (arc s e) loc
    → dist (arc s e) loc ≡ min (circle s loc) (circle e loc)
unfolding dist
dist_outside s e loc vs ve vl h = ground arith

min_left : (x y : ℕ) → x ≤ y → x ≡ min x y
min_left x y h = omega arith

min_right : (x y : ℕ) → y ≤ x → y ≡ min x y
min_right x y h = omega arith

leb-false : (x y : ℕ) → leb x y ≡ false → y ≤ x
leb-false x y h = ground arith

-- No location of the arc is nearer than `dist` says.
pub dist-le-circle :
    (a : DhtArc) (loc m : ℕ)
    → IsArc a
    → IsU32 loc
    → IsU32 m
    → Covers a m
    → dist a loc ≤ circle m loc
unfolding dist
dist-le-circle empty loc m va vl vm h = absurd h
dist-le-circle (arc s e) loc m va vl vm h = ground arith

-- The end of the arc `(s, e)` that is nearer to `loc`.
abbrev nearer_end : ℕ → ℕ → ℕ → ℕ
nearer_end s e loc = if leb (circle s loc) (circle e loc) then s else e

circle-nearer_end :
    (s e loc : ℕ) → circle (nearer_end s e loc) loc ≡ min (circle s loc) (circle e loc)
circle-nearer_end s e loc = elim (Bool-cases (leb (circle s loc) (circle e loc))) [
  | inl h ↦ rw h (let p : circle s loc ≤ circle e loc = leb→le _ _ h in min_left _ _ p)
  | inr h ↦ rw h (min_right _ _ (leb-false _ _ h))
]

nearer_end-Covers : (s e loc : ℕ) → Covers (arc s e) (nearer_end s e loc)
nearer_end-Covers s e loc = elim (Bool-cases (leb (circle s loc) (circle e loc))) [
  | inl h ↦ rw h (omega arith)
  | inr h ↦ rw h (omega arith)
]

-- A location of the arc that is as far from `loc` as `dist` says.
nearest :
    (s e loc : ℕ)
    → IsU32 s
    → IsU32 e
    → IsU32 loc
    → (m : ℕ) × Covers (arc s e) m × (dist (arc s e) loc ≡ circle m loc)
nearest s e loc vs ve vl =
    elim (dec_le ((loc + u32_mod - s) % u32_mod) ((e + u32_mod - s) % u32_mod)) [
      | yes h ↦ (loc, h, dist_inside s e loc vs ve vl h)
      | no h ↦ (
        nearer_end s e loc,
        nearer_end-Covers s e loc,
        dist_outside s e loc vs ve vl h ∙ sym (circle-nearer_end s e loc),
      )
    ]

-- `dist` is the least number of steps, either way round the circle of 2 ^ 32 locations, from the
-- location to one that the arc holds: one such location is that far, and none is nearer.
pub dist-IsLeast :
    (s e loc m : ℕ)
    → IsU32 s
    → IsU32 e
    → IsU32 loc
    → IsU32 m
    → Covers (arc s e) m
    → ((n : ℕ) × Covers (arc s e) n × (dist (arc s e) loc ≡ circle n loc))
      × (dist (arc s e) loc ≤ circle m loc)
dist-IsLeast s e loc m vs ve vl vm h =
    (nearest s e loc vs ve vl, dist-le-circle (arc s e) loc m (vs, ve) vl vm h)

-- The arc `(s, e)` contains exactly the locations `s + k`, round the circle, for the `k` up to its
-- span, which is below 2 ^ 32: the span is the number of its locations less one.
pub contains-iff-offset :
    (s e loc : ℕ)
    → IsU32 s
    → IsU32 e
    → IsU32 loc
    → (arc_span (arc s e) < u32_mod)
      × ((contains (arc s e) loc ≡ true)
          ↔ ((k : ℕ) × (k ≤ arc_span (arc s e)) × (loc ≡ (s + k) % u32_mod)))
unfolding arc_span contains
contains-iff-offset s e loc vs ve vl = (
  ground arith,
  (
    λ h. ((loc + u32_mod - s) % u32_mod, ground arith, ground arith),
    λ p. offset_contained p.0 p.1 p.2,
  ),
)
  where
    offset_contained :
        (k : ℕ) → k ≤ arc_span (arc s e) → loc ≡ (s + k) % u32_mod → contains (arc s e) loc ≡ true
    offset_contained k h e = ground arith
