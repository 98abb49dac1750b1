-- ===== src/ArcSet/Cover.antt =====
-- The loop of `ArcSet::new` over the sectors of one arc (crates/dht/src/arc_set.rs).
use mathlib.Core.Path.{subst}
use kitsune.Prelude.{
  ℕ, zero, suc, ◌+◌, ◌-◌, ◌*◌, ◌/◌, ◌%◌, ◌≤◌, ◌<◌, ◌||◌, List, ltb, ◌≡◌, ◌↔◌, refl, arith,
}
use kitsune.Prelude.Outcome.{ok, ok-injective}
use kitsune.Prelude.Words.{u32_mod, IsU32, add32}
use kitsune.Prelude.Sets.{member, insert, member-insert, IsSetBelow, insert-IsSetBelow}
use kitsune.Arc.{DhtArc, empty, arc, IsArc, contains}
use kitsune.Arc.Distance.{contains-iff-Covers}
use kitsune.ArcSet.{sector_size, factor, num_sectors_covered, cover, add_arc}

-- Where the loop leaves `start`.
pub cover-start :
    (n s : ℕ) (inner : List ℕ) → IsU32 s → (cover n s inner).1 ≡ (s + n * sector_size) % u32_mod
unfolding cover
cover-start zero s inner h = omega arith
cover-start (suc n) s inner h =
    omega
      (arith, cover-start n (add32 s sector_size) (insert (s / sector_size) inner) (omega arith))

pub num_sectors-eq :
    (s e : ℕ)
    → IsU32 s
    → IsU32 e
    → num_sectors_covered s e ≡ (e + u32_mod - s) % u32_mod / sector_size + 1
unfolding num_sectors_covered
num_sectors-eq s e hs he = ground arith

cover-suc :
    (n s : ℕ) (inner : List ℕ)
    → cover (suc n) s inner ≡ cover n (add32 s sector_size) (insert (s / sector_size) inner)
unfolding cover
cover-suc n s inner = refl

cover-zero : (s : ℕ) (inner : List ℕ) → cover 0 s inner ≡ (inner, s)
unfolding cover
cover-zero s inner = refl

-- From the sector of `s` on, `n` rounds add `n` sectors, going round at 512.
pub member-cover :
    (n s k : ℕ) (inner : List ℕ)
    → n ≤ factor
    → IsU32 s
    → k < factor
    → member k (cover n s inner).0
      ≡ (ltb ((k + factor - s / sector_size) % factor) n || member k inner)
member-cover zero s k inner hn hs hk = rw cover-zero (ground arith)
member-cover (suc n) s k inner hn hs hk =
    let q : add32 s sector_size / sector_size ≡ (s / sector_size + 1) % factor = omega arith in
    rw
      (
        cover-suc,
        member-cover n (add32 s sector_size) k (insert (s / sector_size) inner) (omega arith)
            (omega arith) hk,
        q,
        member-insert,
      )
      (ground arith)

cover-IsSetBelow :
    (n s : ℕ) (inner : List ℕ)
    → IsU32 s
    → IsSetBelow factor inner
    → IsSetBelow factor (cover n s inner).0
unfolding cover
cover-IsSetBelow zero s inner h v = v
cover-IsSetBelow (suc n) s inner h v =
    cover-IsSetBelow n (add32 s sector_size) (insert (s / sector_size) inner) (omega arith)
      (insert-IsSetBelow factor (s / sector_size) inner (omega arith) v)

add_arc-out :
    (s e : ℕ) (inner : List ℕ) {out : List ℕ}
    → add_arc (arc s e) inner ≡ ok out
    → (cover (num_sectors_covered s e) s inner).0 ≡ out
unfolding add_arc
add_arc-out s e inner h = ground arith

pub add_arc-IsSetBelow :
    (a : DhtArc) (inner : List ℕ) {out : List ℕ}
    → IsArc a
    → IsSetBelow factor inner
    → add_arc a inner ≡ ok out
    → IsSetBelow factor out
unfolding add_arc
add_arc-IsSetBelow empty inner va v h = subst (IsSetBelow factor) (ok-injective h) v
add_arc-IsSetBelow (arc s e) inner va v h =
    subst (IsSetBelow factor) (add_arc-out s e inner h)
      (cover-IsSetBelow (num_sectors_covered s e) s inner va.0 v)

-- The test after the loop passes exactly when the number of locations of the arc is a multiple of
-- the sector size, wherever the arc begins.
pub add_arc-accepts :
    (s e : ℕ) (inner : List ℕ)
    → IsU32 s
    → IsU32 e
    → ((out : List ℕ) × (add_arc (arc s e) inner ≡ ok out))
      ↔ ((e + u32_mod - s) % u32_mod % sector_size ≡ sector_size - 1)
unfolding add_arc
add_arc-accepts s e inner hs he = (
  λ p.
      ground
        (arith, p.1, cover-start (num_sectors_covered s e) s inner hs, num_sectors-eq s e hs he),
  λ h. (
    (cover (num_sectors_covered s e) s inner).0,
    ground (arith, cover-start (num_sectors_covered s e) s inner hs, num_sectors-eq s e hs he),
  ),
)

-- An arc of whole sectors.
abbrev pub IsAligned : DhtArc → Type 0
IsAligned empty = Unit
IsAligned (arc s e) =
    IsU32 s × IsU32 e × (s % sector_size ≡ 0) × (e % sector_size ≡ sector_size - 1)

sector-contained :
    (s e k : ℕ)
    → IsAligned (arc s e)
    → k < factor
    → contains (arc s e) (k * sector_size)
      ≡ ltb ((k + factor - s / sector_size) % factor) (num_sectors_covered s e)
sector-contained s e k h hk = ground (
  arith,
  contains-iff-Covers (arc s e) (k * sector_size) (h.0, h.1) (omega arith),
  num_sectors-eq s e h.0 h.1,
)

-- An arc of whole sectors is accepted, and adds the sectors whose locations it contains.
pub add_arc-members :
    (a : DhtArc) (inner : List ℕ) (k : ℕ)
    → IsAligned a
    → k < factor
    → (out : List ℕ) × (add_arc a inner ≡ ok out)
      × (member k out ≡ (contains a (k * sector_size) || member k inner))
unfolding add_arc
add_arc-members empty inner k h hk =
    (inner, refl, ground (arith, contains-iff-Covers empty (k * sector_size) tt (omega arith)))
add_arc-members (arc s e) inner k h hk = (
  (cover (num_sectors_covered s e) s inner).0,
  ground (arith, cover-start (num_sectors_covered s e) s inner h.0, num_sectors-eq s e h.0 h.1),
  rw (sector-contained s e k h hk) (
      member-cover (num_sectors_covered s e) s k inner (omega (arith, num_sectors-eq s e h.0 h.1))
        h.0 hk),
)
