-- ===== src/Arc.antt =====
-- `DhtArc` of crates/api/src/arc.rs: ranges of the circular location space of 32-bit words. An
-- operation of the source on `u32` is written with its wrap-around; `Arc.Distance` shows that none
-- of them wraps.
pub mod Distance
pub mod Overlap
use kitsune.Prelude.{
  ℕ, ◌+◌, ◌%◌, ◌-◌, ◌^◌, ◌≤◌, min, Bool, false, true, ◌&&◌, ◌||◌, ltb, leb, ◌==◌, if◌then◌else◌,
}
use kitsune.Prelude.Words.{u32_mod, u32_max, IsU32, add32, sub32}

pub data DhtArc : Type 0 where
  empty : DhtArc
  arc : ℕ → ℕ → DhtArc

abbrev pub full : DhtArc
full = arc 0 u32_max

-- The bounds of an arc are words.
abbrev pub IsArc : DhtArc → Type 0
IsArc empty = Unit
IsArc (arc s e) = IsU32 s × IsU32 e

unfoldable pub dist : DhtArc → ℕ → ℕ
dist empty loc = u32_max
dist (arc arc_start arc_end) loc =
    if ltb arc_end arc_start
    then (if leb arc_start loc || leb loc arc_end
        then 0
        else min (sub32 arc_start loc) (sub32 loc arc_end))
    else if leb arc_start loc && leb loc arc_end
    then 0
    else if ltb loc arc_start
    then min (sub32 arc_start loc) (add32 (add32 (sub32 u32_max arc_end) loc) 1)
    else min (add32 (add32 (sub32 u32_max loc) arc_start) 1) (sub32 loc arc_end)

unfoldable pub contains : DhtArc → ℕ → Bool
unfolding dist
contains a loc = dist a loc == 0

unfoldable pub overlaps : DhtArc → DhtArc → Bool
unfolding dist
overlaps empty other = false
overlaps (arc a_beg a_end) empty = false
overlaps (arc a_beg a_end) (arc b_beg b_end) =
    dist (arc a_beg a_end) b_beg == 0
    || dist (arc a_beg a_end) b_end == 0
    || dist (arc b_beg b_end) a_beg == 0
    || dist (arc b_beg b_end) a_end == 0

unfoldable pub arc_span : DhtArc → ℕ
arc_span empty = 0
arc_span (arc start end) =
    if ltb end start then add32 (add32 (sub32 u32_max start) end) 1 else sub32 end start

unfoldable pub is_empty : DhtArc → Bool
is_empty empty = true
is_empty (arc s e) = false

-- The specification: an arc holds the locations met on the way up from its start to its end,
-- going round at 2 ^ 32.
abbrev pub Covers : DhtArc → ℕ → Type 0
Covers empty loc = ⊥
Covers (arc s e) loc = (loc + u32_mod - s) % u32_mod ≤ (e + u32_mod - s) % u32_mod
