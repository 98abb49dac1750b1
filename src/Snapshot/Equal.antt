-- ===== src/Snapshot/Equal.antt =====
-- The equality tests of crates/dht/src/dht/snapshot.rs on hashes, and snapshots that are identical.
use kitsune.Prelude.{
  true, false, Option, none, some, ◌==◌, ==_iff, same_list_iff, ◌≡◌, ◌↔◌, refl, ap,
}
use kitsune.Prelude.Maps.{same_option}
use kitsune.Combine.{Bytes}
use kitsune.Snapshot.{DhtSnapshot, identical, same_bytes, same_snapshot, differences, compare}

pub same_bytes_iff : (a b : Bytes) → (same_bytes a b ≡ true) ↔ (a ≡ b)
same_bytes_iff a b = same_list_iff ◌==◌ ==_iff a b

pub same_option_iff : (o p : Option Bytes) → (same_option same_bytes o p ≡ true) ↔ (o ≡ p)
unfolding same_option
same_option_iff none none = (λ h. refl, λ h. refl)
same_option_iff none (some b) = (λ h. cc, λ h. cc)
same_option_iff (some a) none = (λ h. cc, λ h. cc)
same_option_iff (some a) (some b) =
    (λ h. ap some ((same_bytes_iff a b).0 h), λ h. (same_bytes_iff a b).1 (cc))

-- Two snapshots that are not the same are told apart, or cannot be compared.
pub compare-same : (s s' : DhtSnapshot) → same_snapshot s s' ≡ true → compare s s' ≡ identical
unfolding compare
compare-same s s' h = rw h

pub compare-other :
    (s s' : DhtSnapshot) → same_snapshot s s' ≡ false → compare s s' ≡ differences s s'
unfolding compare
compare-other s s' h = rw h
