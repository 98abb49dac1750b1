-- ===== src/Tests/Arcs.antt =====
-- Arcs of crates/api/src/arc.rs at concrete bounds, one of them across the end of the circle.
use kitsune.Prelude.{ℕ, ◌≡◌, ◌↔◌, ◌+◌, ◌%◌, ◌≤◌, ◌<◌, true, refl, arith}
use kitsune.Prelude.Words.{u32_mod, IsU32}
use kitsune.Arc.{arc, dist, contains, overlaps, arc_span, Covers}
use kitsune.Arc.Distance.{circle, dist-IsLeast, contains-iff-offset}
use kitsune.Arc.Overlap.{overlaps-iff-shared}

dist_round : dist (arc 4294967290 5) 10 ≡ 5
unfolding dist
dist_round = refl

dist-IsLeast_example :
    ((n : ℕ) × Covers (arc 4294967290 5) n × (dist (arc 4294967290 5) 10 ≡ circle n 10))
    × (dist (arc 4294967290 5) 10 ≤ circle 4294967295 10)
dist-IsLeast_example =
    dist-IsLeast 4294967290 5 10 4294967295 (omega arith) (omega arith) (omega arith) (omega arith)
      (omega arith)

contains-iff-offset_example :
    (arc_span (arc 4294967290 5) < u32_mod)
    × ((contains (arc 4294967290 5) 3 ≡ true)
        ↔ ((k : ℕ) × (k ≤ arc_span (arc 4294967290 5)) × (3 ≡ (4294967290 + k) % u32_mod)))
contains-iff-offset_example =
    contains-iff-offset 4294967290 5 3 (omega arith) (omega arith) (omega arith)

overlaps-iff-shared_example : (overlaps (arc 4294967290 5) (arc 4 9) ≡ true) ↔ (
    (loc : ℕ) × IsU32 loc
    × (contains (arc 4294967290 5) loc ≡ true)
    × (contains (arc 4 9) loc ≡ true))
overlaps-iff-shared_example =
    overlaps-iff-shared (arc 4294967290 5) (arc 4 9) (omega arith, omega arith)
      (omega arith, omega arith)
