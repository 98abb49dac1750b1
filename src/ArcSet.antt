-- ===== src/ArcSet.antt =====
-- `ArcSet` of crates/dht/src/arc_set.rs: the sectors of the location space that a list of arcs
-- covers. The `HashSet<u32>` is a list without duplicates, in the order of its insertions, which
-- stands for the order of iteration that the source leaves open.
pub mod Cover
pub mod Build
pub mod Whole
pub mod Encode
pub mod Decode
pub mod Codec
pub mod Arcs
use Prim.Native.Nat.{bit_and, bit_or}
use kitsune.Prelude.{
  ℕ, zero, suc, ◌+◌, ◌-◌, ◌*◌, ◌/◌, ◌%◌, ◌^◌, ◌<◌, min, Bool, true, false, ◌&&◌, ◌||◌, not, List,
  [], ◌∷◌, length, get_or, set, replicate, ltb, ◌==◌, if◌then◌else◌,
}
use kitsune.Prelude.Outcome.{
  Outcome, K2Error, other, other_with, ok, err, panic, ◌>>=◌, ◌>>◌, fail_if,
}
use kitsune.Prelude.Words.{u32_mod, u32_max, add32, sub32}
use kitsune.Prelude.Sets
use kitsune.Prelude.Sets.{member, insert, remove, IsSetBelow}
use kitsune.Arc.{DhtArc, empty, arc, full}

-- crates/dht/src/constant.rs
abbrev pub sector_size : ℕ
sector_size = 2 ^ 23

-- `u32::MAX / SECTOR_SIZE + 1`
abbrev pub factor : ℕ
factor = u32_max / sector_size + 1

pub record ArcSet : Type 0 where
  pub inner : List ℕ

-- What every operation keeps: sector indices below 512, none twice.
abbrev pub IsArcSet : ArcSet → Type 0
IsArcSet s = IsSetBelow factor s.inner

unfoldable pub num_sectors_covered : ℕ → ℕ → ℕ
num_sectors_covered start end =
    if ltb end start
    then add32 (add32 (sub32 u32_max start) end) 1 / sector_size + 1
    else sub32 end start / sector_size + 1

-- `for _ in 0..num_sectors_covered`, with the new set and the new `start`.
unfoldable pub cover : ℕ → ℕ → List ℕ → List ℕ × ℕ
cover zero start inner = (inner, start)
cover (suc n) start inner = cover n (add32 start sector_size) (insert (start / sector_size) inner)

-- The body of the loop over the arcs.
unfoldable pub add_arc : DhtArc → List ℕ → Outcome (List ℕ)
add_arc empty inner = ok inner
add_arc (arc start end) inner =
    let (inner', start') = cover (num_sectors_covered start end) start inner in
    if not (start' == add32 end 1) && not (end == u32_max && start' == 0)
    then err (
        other_with "Invalid arc, expected end at {start} but arc specifies {end}"
          (start' ∷ end ∷ []))
    else ok inner'

unfoldable pub add_arcs : List DhtArc → List ℕ → Outcome (List ℕ)
add_arcs [] inner = ok inner
add_arcs (a ∷ arcs) inner = elim (length inner == factor) [
  | true ↦ ok inner
  | false ↦ add_arc a inner >>= λ inner'. add_arcs arcs inner'
]

unfoldable pub new : List DhtArc → Outcome ArcSet
new arcs = do
  fail_if (factor == 0 || not (bit_and factor (factor - 1) == 0)) (other "Invalid size")
  inner ← add_arcs arcs []
  ok (record { inner = inner })

unfoldable pub intersection : ArcSet → ArcSet → ArcSet
intersection a b = record { inner = Sets.intersection a.inner b.inner }

unfoldable pub covered_sector_count : ArcSet → ℕ
covered_sector_count s = length s.inner

-- `out[index] |= 1 << bit` for each sector; an index past the end panics.
unfoldable pub encode_sectors : List ℕ → List ℕ → Outcome (List ℕ)
encode_sectors [] out = ok out
encode_sectors (sector ∷ rest) out = elim (ltb (sector / 32) (length out)) [
  | true ↦
      encode_sectors rest
        (set out (sector / 32) (bit_or (get_or out (sector / 32) 0) (2 ^ (sector % 32))))
  | false ↦ panic
]

unfoldable pub encode : ArcSet → Outcome (List ℕ)
encode s = encode_sectors s.inner (replicate (512 / 32) 0)

-- `for bit in 0..32`, `n` rounds before the end.
unfoldable pub decode_bits : ℕ → ℕ → ℕ → ℕ → List ℕ → List ℕ
decode_bits zero bit index value inner = inner
decode_bits (suc n) bit index value inner =
    decode_bits n (bit + 1) index value
      (if not (bit_and value (2 ^ bit) == 0) then insert (index * 32 + bit) inner else inner)

unfoldable pub decode_words : List ℕ → ℕ → List ℕ → List ℕ
decode_words [] index inner = inner
decode_words (value ∷ rest) index inner =
    decode_words rest (index + 1) (decode_bits 32 0 index value inner)

unfoldable pub decode : List ℕ → Outcome ArcSet
decode input = do
  fail_if (not (length input == 512 / 32)) (other "Invalid size for encoded arc set")
  ok (record { inner = decode_words input 0 [] })

unfoldable pub includes_sector_index : ArcSet → ℕ → Bool
includes_sector_index s value = member value s.inner

unfoldable pub remove_all : List ℕ → List ℕ → List ℕ
remove_all [] inner = inner
remove_all (sector ∷ rest) inner = remove_all rest (remove sector inner)

unfoldable pub without_sector_indices : ArcSet → List ℕ → ArcSet
without_sector_indices s gone = record { inner = remove_all gone s.inner }

-- `sectors.sort()`
unfoldable pub insert_sorted : ℕ → List ℕ → List ℕ
insert_sorted x [] = x ∷ []
insert_sorted x (y ∷ ys) = let rest = insert_sorted x ys in if ltb y x then y ∷ rest else x ∷ y ∷ ys

unfoldable pub sort : List ℕ → List ℕ
sort [] = []
sort (x ∷ xs) = insert_sorted x (sort xs)

-- The arc of the sectors from `start_sector` to `end_sector`; the product saturates.
unfoldable pub sectors_arc : ℕ → ℕ → DhtArc
sectors_arc start_sector end_sector =
    let top = min ((end_sector + 1) * sector_size) u32_max in
    arc (start_sector * sector_size) (if top == u32_max then u32_max else top - 1)

-- The `while` over the sorted sectors: the run from `s` to `e`, then the sectors not yet read.
unfoldable pub runs : ℕ → ℕ → List ℕ → List DhtArc
runs s e [] = sectors_arc s e ∷ []
runs s e (y ∷ ys) = elim (e + 1 == y) [ true ↦ runs s y ys | false ↦ sectors_arc s e ∷ runs y y ys ]

unfoldable pub runs_of : List ℕ → List DhtArc
runs_of [] = []
runs_of (x ∷ xs) = runs x x xs

unfoldable pub as_arcs : ArcSet → List DhtArc
as_arcs s =
    if length s.inner == 0
    then []
    else if length s.inner == 512
    then full ∷ []
    else runs_of (sort s.inner)
