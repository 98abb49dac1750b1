-- ===== src/Gossip/Wire/Codec.antt =====
-- A snapshot on its way to a peer (crates/gossip/src/protocol.rs).
use kitsune.Prelude.{String, suc, List, [], ◌∷◌, map, length, ==_refl, ◌≡◌, refl, ap, ◌∙◌}
use kitsune.Prelude.Outcome.{Outcome, ok, ◌>>=◌}
use kitsune.Prelude.Maps.{Map, zip, keys, values, collect_map, IsMap}
use kitsune.Prelude.Maps.Collect.{collect_map-zip}
use kitsune.Combine.{Bytes}
use kitsune.Snapshot.{DhtSnapshot, minimal, disc_sectors, disc_sector_details, ring_sector_details}
use kitsune.Gossip.Wire.{
  zipped, to_minimal, from_minimal, to_disc_sectors, from_disc_sectors, to_disc_sector_details,
  from_disc_sector_details, to_ring_sector_details, from_ring_sector_details, each_zipped,
  disc_slices, ring_sectors_of,
}

-- The inner maps are maps too.
abbrev pub AreMaps : Map (Map Bytes) → Type 0
AreMaps [] = Unit
AreMaps ((k, h) ∷ m) = IsMap h × AreMaps m

-- A snapshot in which no key stands twice.
abbrev pub IsSnapshot : DhtSnapshot → Type 0
IsSnapshot (minimal d t r) = Unit
IsSnapshot (disc_sectors m t) = IsMap m
IsSnapshot (disc_sector_details m t) = IsMap m × AreMaps m
IsSnapshot (ring_sector_details m t) = IsMap m × AreMaps m

-- Sending a snapshot, each kind in its message, and receiving it.
abbrev pub delivered : DhtSnapshot → Outcome DhtSnapshot
delivered (minimal d t r) = to_minimal (minimal d t r) >>= λ m. ok (from_minimal m)
delivered (disc_sectors m t) = to_disc_sectors (disc_sectors m t) >>= from_disc_sectors
delivered (disc_sector_details m t) =
    to_disc_sector_details (disc_sector_details m t) >>= from_disc_sector_details
delivered (ring_sector_details m t) =
    to_ring_sector_details (ring_sector_details m t) >>= from_ring_sector_details

length-keys {ℓ} : {V : Type ℓ} (m : Map V) → length (keys m) ≡ length m
unfolding keys
length-keys [] = refl
length-keys ((k, v) ∷ m) = ap suc (length-keys m)

length-values {ℓ} : {V : Type ℓ} (m : Map V) → length (values m) ≡ length m
unfolding values
length-values [] = refl
length-values ((k, v) ∷ m) = ap suc (length-values m)

length-map {ℓ κ} : {A : Type ℓ} {B : Type κ} (f : A → B) (l : List A) → length (map f l) ≡ length l
length-map f [] = refl
length-map f (x ∷ l) = ap suc (length-map f l)

zipped-values :
    (message : String) (m : Map Bytes) → IsMap m → zipped message (keys m) (values m) ≡ ok m
zipped-values message m h = rw (length-keys, length-values, ==_refl) (ap ok (collect_map-zip m h))

each_zipped-values :
    {R : Type 0} (f : R → Outcome (Map Bytes)) (g : Map Bytes → R)
    → ((h : Map Bytes) → IsMap h → f (g h) ≡ ok h)
    → (m a : Map (Map Bytes)) → AreMaps m
    → each_zipped f (zip (keys m) (map g (values m))) a
      ≡ ok (collect_map (zip (keys m) (values m)) a)
unfolding each_zipped keys values zip collect_map
each_zipped-values f g e [] a h = refl
each_zipped-values f g e ((k, x) ∷ m) a (h, hs) = rw (e x h) (each_zipped-values f g e m _ hs)

all_zipped :
    {R : Type 0} (f : R → Outcome (Map Bytes)) (g : Map Bytes → R)
    → ((h : Map Bytes) → IsMap h → f (g h) ≡ ok h)
    → (m : Map (Map Bytes)) → IsMap m
    → AreMaps m
    → each_zipped f (zip (keys m) (map g (values m))) [] ≡ ok m
all_zipped f g e m h hs = each_zipped-values f g e m [] hs ∙ ap ok (collect_map-zip m h)

-- A snapshot in which no key stands twice is delivered as it was sent.
pub delivered_lem : (s : DhtSnapshot) → IsSnapshot s → delivered s ≡ ok s
unfolding to_minimal from_minimal to_disc_sectors from_disc_sectors to_disc_sector_details
    from_disc_sector_details to_ring_sector_details from_ring_sector_details disc_slices
    ring_sectors_of
delivered_lem (minimal d t r) h = refl
delivered_lem (disc_sectors m t) h =
    rw (zipped-values "Mismatched disc sector and hash lengths" m h) refl
delivered_lem (disc_sector_details m t) (h, hs) =
    let e =
      all_zipped disc_slices (λ h. record { slice_indices = keys h; hashes = values h })
        (λ x y. zipped-values "Mismatched slice and hash lengths" x y) m h hs in
    rw (length-map, length-keys, length-values, ==_refl, e) refl
delivered_lem (ring_sector_details m t) (h, hs) =
    let e =
      all_zipped ring_sectors_of (λ h. record { sector_indices = keys h; hashes = values h })
        (λ x y. zipped-values "Mismatched sector and hash lengths" x y) m h hs in
    rw (length-map, length-keys, length-values, ==_refl, e) refl
