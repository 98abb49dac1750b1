-- ===== src/Hash/Sectors.antt =====
-- The arcs of the sectors of crates/dht/src/hash.rs.
use mathlib.Core.Path.{subst}
use kitsune.Prelude.{
  Bool-cases, inl, inr, ℕ, ◌+◌, ◌-◌, ◌/◌, ◌<◌, true, ◌≡◌, ◌↔◌, arith, if◌then◌else◌, ◌==◌,
}
use kitsune.Prelude.Words.{IsU32}
use kitsune.Arc.{DhtArc, contains}
use kitsune.Arc.Distance.{contains-iff-Covers}
use kitsune.ArcSet.{sector_size, factor}
use kitsune.Hash.{inner_arc, last_arc}

-- The arc of a sector, the last one or not.
abbrev pub sector_arc : ℕ → DhtArc
sector_arc k = if k + 1 == factor then last_arc else inner_arc k

inner-contains :
    (loc k : ℕ)
    → IsU32 loc
    → k + 1 < factor
    → (contains (inner_arc k) loc ≡ true) ↔ (loc / sector_size ≡ k)
inner-contains loc k vl h =
    ground (arith, contains-iff-Covers (inner_arc k) loc (omega arith, omega arith) vl)

last-contains :
    (loc : ℕ) → IsU32 loc → (contains last_arc loc ≡ true) ↔ (loc / sector_size ≡ factor - 1)
last-contains loc vl =
    ground (arith, contains-iff-Covers last_arc loc (omega arith, omega arith) vl)

-- A location lies in the arc of exactly one of the 512 sectors, the one whose index is the location
-- divided by the sector size.
pub sector_arc-contains :
    (loc k : ℕ)
    → IsU32 loc
    → k < factor
    → (contains (sector_arc k) loc ≡ true) ↔ (loc / sector_size ≡ k)
sector_arc-contains loc k vl h = elim (Bool-cases (k + 1 == factor)) [
  | inl b ↦
      let e : factor - 1 ≡ k = ground arith in
      rw b (
        subst (λ j. (contains last_arc loc ≡ true) ↔ (loc / sector_size ≡ j)) e
          (last-contains loc vl))
  | inr b ↦ rw b (inner-contains loc k vl (ground arith))
]
