-- ===== src/Tests/Sets.antt =====
-- Sets of sectors of crates/dht/src/arc_set.rs.
use kitsune.Prelude.{
  ◌<◌, ◌⊎◌, length, All, ℕ, ◌≡◌, ◌↔◌, ◌+◌, ◌-◌, ◌*◌, ◌%◌, List, [], ◌∷◌, refl, arith,
}
use kitsune.Prelude.Outcome.{K2Error, err, ok}
use kitsune.Prelude.Sets.{insert-IsSetBelow, IsSetBelow-nil, member, insert}
use kitsune.Prelude.Words.{u32_mod}
use kitsune.Arc.{DhtArc, arc}
use kitsune.ArcSet.{
  factor, sector_size, ArcSet, IsArcSet, num_sectors_covered, cover, add_arc, add_arcs, new,
  covered_sector_count, encode, decode, decode_words, decode_bits, includes_sector_index, as_arcs,
}
use kitsune.ArcSet.Cover.{add_arc-accepts}
use kitsune.ArcSet.Build.{any_contains, new-members}
use kitsune.ArcSet.Whole.{IsWhole, any_covers, new_lem}
use kitsune.ArcSet.Decode.{decode-IsArcSet}
use kitsune.ArcSet.Codec.{decode-encode}
use kitsune.ArcSet.Arcs.{new-as_arcs}

-- Sectors 511, 0 and 1, one arc across the end of the circle.
abbrev around : DhtArc
around = arc 4286578688 16777215

abbrev some_sectors : ArcSet
some_sectors = record { inner = 1 ∷ 0 ∷ 511 ∷ [] }

new-around : new (around ∷ []) ≡ ok some_sectors
unfolding new add_arcs add_arc cover num_sectors_covered insert member
new-around = refl

some_sectors-IsArcSet : IsArcSet some_sectors
unfolding insert member
some_sectors-IsArcSet = insert-IsSetBelow factor 1 (0 ∷ 511 ∷ []) (omega arith) (
    insert-IsSetBelow factor 0 (511 ∷ []) (omega arith)
      (insert-IsSetBelow factor 511 [] (omega arith) (IsSetBelow-nil factor)))

decode-encode_example :
    (words : List ℕ) × (encode some_sectors ≡ ok words)
    × (t : ArcSet) × (decode words ≡ ok t)
    × (includes_sector_index t 511 ≡ includes_sector_index some_sectors 511)
    × (covered_sector_count t ≡ covered_sector_count some_sectors)
decode-encode_example = decode-encode some_sectors 511 some_sectors-IsArcSet

new-as_arcs_example :
    (t : ArcSet) × (new (as_arcs some_sectors) ≡ ok t)
    × (includes_sector_index t 511 ≡ includes_sector_index some_sectors 511)
new-as_arcs_example = new-as_arcs some_sectors 511 some_sectors-IsArcSet (omega arith)

new-members_example :
    (s : ArcSet) × (new (around ∷ []) ≡ ok s)
    × (includes_sector_index s 511 ≡ any_contains (around ∷ []) (511 * sector_size))
new-members_example =
    new-members (around ∷ []) 511 ((omega arith, omega arith, omega arith, omega arith), tt)
      (omega arith)

add_arc-accepts_example :
    ((out : List ℕ) × (add_arc (arc 5 8388612) [] ≡ ok out))
    ↔ ((8388612 + u32_mod - 5) % u32_mod % sector_size ≡ sector_size - 1)
add_arc-accepts_example = add_arc-accepts 5 8388612 [] (omega arith) (omega arith)

-- An arc of one sector's size that does not begin with a sector, and two sectors.
new_lem_example :
    ((s : ArcSet) × (new (arc 5 8388612 ∷ arc 8388608 25165823 ∷ []) ≡ ok s)
      × IsArcSet s
      × ((k : ℕ)
          → k < factor
          → includes_sector_index s k ≡ any_covers (arc 5 8388612 ∷ arc 8388608 25165823 ∷ []) k)
      × (All IsWhole (arc 5 8388612 ∷ arc 8388608 25165823 ∷ []) ⊎ (length s.inner ≡ factor)))
    ⊎ ((e : K2Error) × (new (arc 5 8388612 ∷ arc 8388608 25165823 ∷ []) ≡ err e)
        × ¬ All IsWhole (arc 5 8388612 ∷ arc 8388608 25165823 ∷ []))
new_lem_example =
    new_lem (arc 5 8388612 ∷ arc 8388608 25165823 ∷ [])
      ((omega arith, omega arith), ((omega arith, omega arith), tt))

-- The words of the sectors 0 and 33.
abbrev two_words : List ℕ
two_words = 1 ∷ 2 ∷ 0 ∷ 0 ∷ 0 ∷ 0 ∷ 0 ∷ 0 ∷ 0 ∷ 0 ∷ 0 ∷ 0 ∷ 0 ∷ 0 ∷ 0 ∷ 0 ∷ []

decode_two : decode two_words ≡ ok (record { inner = 33 ∷ 0 ∷ [] })
unfolding decode decode_words decode_bits insert member
decode_two = refl

decode-IsArcSet_example : IsArcSet (record { inner = 33 ∷ 0 ∷ [] })
decode-IsArcSet_example = decode-IsArcSet two_words decode_two
