-- ===== src/Tests/Sectors.antt =====
-- Sectors and the grouping of ops of crates/dht/src/hash.rs.
use kitsune.Prelude.{ℕ, ◌+◌, ◌*◌, ◌/◌, true, [], ◌∷◌, ◌≡◌, ◌↔◌, refl, arith}
use kitsune.Arc.{contains}
use kitsune.ArcSet.{sector_size}
use kitsune.OpStore.{OpId, StoredOp}
use kitsune.Hash.{push_op, group_ops}
use kitsune.Hash.Routing.{AllApart, ops_at, ops_of, group_ops_lem}
use kitsune.Hash.Sectors.{sector_arc, sector_arc-contains}

sector_arc-contains_example :
    (contains (sector_arc 511) 4294967295 ≡ true) ↔ (4294967295 / sector_size ≡ 511)
sector_arc-contains_example = sector_arc-contains 4294967295 511 (omega arith) (omega arith)

-- A location that is read off four bytes, the lowest first.
abbrev four_bytes : OpId → ℕ
four_bytes (a ∷ b ∷ c ∷ d ∷ rest) = a + 256 * b + 65536 * c + 16777216 * d
four_bytes id = 0

abbrev op_at : ℕ → ℕ → StoredOp
op_at low high = record { op_id = low ∷ 0 ∷ 0 ∷ high ∷ []; created_at = 0 }

grouped :
    group_ops four_bytes sector_size [] (op_at 1 4 ∷ op_at 2 0 ∷ op_at 3 4 ∷ [])
    ≡ (8, op_at 1 4 ∷ op_at 3 4 ∷ []) ∷ (0, op_at 2 0 ∷ []) ∷ []
unfolding group_ops push_op
grouped = refl

group_ops_lem_example :
    AllApart (group_ops four_bytes sector_size [] (op_at 1 4 ∷ op_at 2 0 ∷ op_at 3 4 ∷ []))
    × (ops_at 8 (group_ops four_bytes sector_size [] (op_at 1 4 ∷ op_at 2 0 ∷ op_at 3 4 ∷ []))
        ≡ ops_of four_bytes sector_size 8 (op_at 1 4 ∷ op_at 2 0 ∷ op_at 3 4 ∷ []))
group_ops_lem_example =
    group_ops_lem four_bytes sector_size (op_at 1 4 ∷ op_at 2 0 ∷ op_at 3 4 ∷ []) 8
