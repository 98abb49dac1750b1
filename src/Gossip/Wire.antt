-- ===== src/Gossip/Wire.antt =====
-- How snapshots travel in messages (crates/gossip/src/protocol.rs): a map is sent as a list of its keys
-- and a list of its values. The message types are those of gossip.proto.
pub mod Codec
use kitsune.Prelude.{String, ℕ, Bool, not, List, [], ◌∷◌, map, length, ◌==◌, if◌then◌else◌}
use kitsune.Prelude.Outcome.{Outcome, K2Error, other, ok, err, fail_if, ◌>>=◌, ◌>>◌}
use kitsune.Prelude.Maps.{Map, put, zip, keys, values, collect_map}
use kitsune.Timestamp.{Timestamp}
use kitsune.Combine.{Bytes}
use kitsune.Snapshot.{DhtSnapshot, minimal, disc_sectors, disc_sector_details, ring_sector_details}

pub record SnapshotMinimalMessage : Type 0 where
  pub disc_boundary : Timestamp
  pub disc_top_hash : Bytes
  pub ring_top_hashes : List Bytes

pub record SnapshotDiscSectorsMessage : Type 0 where
  pub disc_boundary : Timestamp
  pub disc_sectors : List ℕ
  pub disc_sector_hashes : List Bytes

pub record DiscSliceHashes : Type 0 where
  pub slice_indices : List ℕ
  pub hashes : List Bytes

pub record SnapshotDiscSectorDetailsMessage : Type 0 where
  pub disc_boundary : Timestamp
  pub sector_indices : List ℕ
  pub disc_slice_hashes : List DiscSliceHashes

pub record RingSectorHashes : Type 0 where
  pub sector_indices : List ℕ
  pub hashes : List Bytes

pub record SnapshotRingSectorDetailsMessage : Type 0 where
  pub disc_boundary : Timestamp
  pub ring_indices : List ℕ
  pub ring_sector_hashes : List RingSectorHashes

-- `if a.len() != b.len() { return Err(..) }`, then the two lists as one map.
abbrev pub zipped {ℓ} : {V : Type ℓ} → String → List ℕ → List V → Outcome (Map V)
zipped message ks vs =
    if not (length ks == length vs) then err (other message) else ok (collect_map (zip ks vs) [])

unfoldable pub to_minimal : DhtSnapshot → Outcome SnapshotMinimalMessage
to_minimal (minimal d t r) =
    ok (record { disc_boundary = t; disc_top_hash = d; ring_top_hashes = r })
to_minimal s = err (other "Only DhtSnapshot::Minimal can be converted to a SnapshotMinimalMessage")

unfoldable pub from_minimal : SnapshotMinimalMessage → DhtSnapshot
from_minimal m = minimal m.disc_top_hash m.disc_boundary m.ring_top_hashes

unfoldable pub to_disc_sectors : DhtSnapshot → Outcome SnapshotDiscSectorsMessage
to_disc_sectors (disc_sectors m t) =
    ok (record { disc_boundary = t; disc_sectors = keys m; disc_sector_hashes = values m })
to_disc_sectors s =
    err (other "Only DhtSnapshot::DiscSectors can be converted to a SnapshotDiscSectorsMessage")

unfoldable pub from_disc_sectors : SnapshotDiscSectorsMessage → Outcome DhtSnapshot
from_disc_sectors m = do
  sectors ← zipped "Mismatched disc sector and hash lengths" m.disc_sectors m.disc_sector_hashes
  ok (disc_sectors sectors m.disc_boundary)

unfoldable pub to_disc_sector_details : DhtSnapshot → Outcome SnapshotDiscSectorDetailsMessage
to_disc_sector_details (disc_sector_details m t) = ok (record {
  disc_boundary = t;
  sector_indices = keys m;
  disc_slice_hashes = map (λ h. record { slice_indices = keys h; hashes = values h }) (values m);
})
to_disc_sector_details s = err (
    other
      "Only DhtSnapshot::DiscSectorDetails can be converted to a SnapshotDiscSectorDetailsMessage")

unfoldable pub to_ring_sector_details : DhtSnapshot → Outcome SnapshotRingSectorDetailsMessage
to_ring_sector_details (ring_sector_details m t) = ok (record {
  disc_boundary = t;
  ring_indices = keys m;
  ring_sector_hashes = map (λ h. record { sector_indices = keys h; hashes = values h }) (values m);
})
to_ring_sector_details s = err (
    other
      "Only DhtSnapshot::RingSectorDetails can be converted to a SnapshotRingSectorDetailsMessage")

-- The inner maps in turn; the first error ends the `collect`.
unfoldable pub each_zipped {ℓ κ} :
    {R : Type ℓ} {V : Type κ}
    → (R → Outcome (Map V))
    → List (ℕ × R)
    → Map (Map V)
    → Outcome (Map (Map V))
each_zipped f [] out = ok out
each_zipped f ((k, r) ∷ l) out = f r >>= λ h. each_zipped f l (put k h out)

unfoldable pub disc_slices : DiscSliceHashes → Outcome (Map Bytes)
disc_slices r = zipped "Mismatched slice and hash lengths" r.slice_indices r.hashes

unfoldable pub from_disc_sector_details : SnapshotDiscSectorDetailsMessage → Outcome DhtSnapshot
from_disc_sector_details m = do
  fail_if (not (length m.sector_indices == length m.disc_slice_hashes))
      (other "Mismatched sector and hash lengths")
  out ← each_zipped disc_slices (zip m.sector_indices m.disc_slice_hashes) []
  ok (disc_sector_details out m.disc_boundary)

unfoldable pub ring_sectors_of : RingSectorHashes → Outcome (Map Bytes)
ring_sectors_of r = zipped "Mismatched sector and hash lengths" r.sector_indices r.hashes

unfoldable pub from_ring_sector_details : SnapshotRingSectorDetailsMessage → Outcome DhtSnapshot
from_ring_sector_details m = do
  fail_if (not (length m.ring_indices == length m.ring_sector_hashes))
      (other "Mismatched ring sector and hash lengths")
  out ← each_zipped ring_sectors_of (zip m.ring_indices m.ring_sector_hashes) []
  ok (ring_sector_details out m.disc_boundary)
