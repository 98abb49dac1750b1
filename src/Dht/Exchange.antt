-- ===== src/Dht/Exchange.antt =====
-- Two peers that answer each other's snapshots in turn (crates/dht/src/dht.rs): the exchange ends.
use kitsune.Prelude.{
  ℕ, suc, ◌+◌, ◌≤◌, ◌<◌, true, false, Bool-cases, inl, inr, Option, none, some, ◌≡◌, refl, ap, sym,
  ◌∙◌, arith,
}
use kitsune.Prelude.Outcome.{ok}
use kitsune.ArcSet.{ArcSet}
use kitsune.OpStore.{OpStore}
use kitsune.Snapshot.{DhtSnapshot, minimal, disc_sectors, disc_sector_details, ring_sector_details}
use kitsune.Dht.{
  Dht, DhtSnapshotNextAction, in_sync, cannot_compare_dhts, new_snapshot,
  new_snapshot_and_hash_list, hash_list,
}
use kitsune.Dht.Handle.{is_final, handle_snapshot}
use kitsune.Dht.Rounds.{level, Progress, handle_snapshot-Progress}

-- What the caller keeps of a snapshot that it sent: only one with all details.
abbrev pub kept : DhtSnapshot → Option DhtSnapshot
kept (minimal d t r) = none
kept (disc_sectors m t) = none
kept (disc_sector_details m t) = some (disc_sector_details m t)
kept (ring_sector_details m t) = some (ring_sector_details m t)

-- The snapshot that an answer carries.
abbrev pub carried : DhtSnapshotNextAction → Option DhtSnapshot
carried in_sync = none
carried cannot_compare_dhts = none
carried (new_snapshot x) = some x
carried (new_snapshot_and_hash_list x ids) = some x
carried (hash_list ids) = none

-- `Exchange store n previous their`: the snapshot `their` is answered with a snapshot, that one by
-- the other peer again, and so on, `n` answers with a snapshot in all. `previous` is what the peer
-- whose turn it is kept of its last one. Both peers' state and limits may change from turn to turn.
pub data Exchange (store : OpStore) : ℕ → Option DhtSnapshot → DhtSnapshot → Type 0 where
  done : {previous : Option DhtSnapshot} {their : DhtSnapshot} → Exchange store 0 previous their
  answer :
      {n : ℕ} {previous : Option DhtSnapshot} {their : DhtSnapshot} (dht : Dht) (s : store.State)
      (arc_set : ArcSet) (max_op_data_bytes : ℕ) (action : DhtSnapshotNextAction) (used_bytes : ℕ)
      (x : DhtSnapshot)
      → handle_snapshot store dht their previous arc_set max_op_data_bytes s
        ≡ ok (action, used_bytes)
      → carried action ≡ some x
      → Exchange store n (kept their) x
      → Exchange store (suc n) previous their

-- One more answer is possible from a peer that has not kept a snapshot.
abbrev pub spare : Option DhtSnapshot → ℕ
spare previous = elim (is_final previous) [ true ↦ 0 | false ↦ 1 ]

-- A snapshot is only kept where the one in question has all details.
abbrev pub Kept : Option DhtSnapshot → DhtSnapshot → Type 0
Kept previous their = is_final previous ≡ true → level their ≡ 2

level-bound : (x : DhtSnapshot) → level x ≤ 2
level-bound (minimal d t r) = omega arith
level-bound (disc_sectors m t) = omega arith
level-bound (disc_sector_details m t) = omega arith
level-bound (ring_sector_details m t) = omega arith

spare-kept : (x : DhtSnapshot) → level x ≡ 2 → spare (kept x) ≡ 0
unfolding is_final
spare-kept (minimal d t r) h = absurd (omega arith)
spare-kept (disc_sectors m t) h = absurd (omega arith)
spare-kept (disc_sector_details m t) h = refl
spare-kept (ring_sector_details m t) h = refl

kept-Kept : (x y : DhtSnapshot) → (level x ≡ 2 → level y ≡ 2) → Kept (kept x) y
unfolding is_final
kept-Kept (minimal d t r) y h e = cc
kept-Kept (disc_sectors m t) y h e = cc
kept-Kept (disc_sector_details m t) y h e = h refl
kept-Kept (ring_sector_details m t) y h e = h refl

spare-bound : (previous : Option DhtSnapshot) → spare previous ≤ 1
spare-bound previous = elim (Bool-cases (is_final previous)) [
  | inl y ↦ rw (spare, y) (omega arith)
  | inr n ↦ rw (spare, n) (omega arith)
]

-- A peer that has kept no snapshot can spare an answer.
spare_shallow :
    (previous : Option DhtSnapshot) (their : DhtSnapshot)
    → Kept previous their
    → level their < 2
    → spare previous ≡ 1
spare_shallow previous their k h = elim (Bool-cases (is_final previous)) [
  | inl y ↦ (let p = k y in absurd (omega (arith, p, h)))
  | inr n ↦ rw (spare, n) refl
]

module _ (store : OpStore) where
  -- One answer with a snapshot, and what is left after it.
  one_answer :
      (n : ℕ) (previous : Option DhtSnapshot) (their x : DhtSnapshot)
      (action : DhtSnapshotNextAction)
      → Kept previous their
      → Progress their previous action
      → carried action ≡ some x
      → (Kept (kept their) x → n + level x ≤ 2 + spare (kept their))
      → suc n + level their ≤ 2 + spare previous
  one_answer n previous their x in_sync k p e ih = cc
  one_answer n previous their x cannot_compare_dhts k p e ih = cc
  one_answer n previous their x (hash_list ids) k p e ih = cc
  one_answer n previous their x (new_snapshot y) k p e ih =
      let q : level y ≡ level x = ap level (let z : y ≡ x = cc in z) in
      let b = level-bound x in
      let c = spare-bound (kept their) in
      let d = spare_shallow previous their k (omega (arith, p, q, b)) in
      let i = ih (kept-Kept their x (λ f. absurd (omega (arith, p, q, b, f)))) in
      omega (arith, p, q, c, d, i)
  one_answer n previous their x (new_snapshot_and_hash_list y ids) k (f, l, l') e ih =
      let q : level y ≡ level x = ap level (let z : y ≡ x = cc in z) in
      let c = spare-kept their l in
      let d : spare previous ≡ 1 = rw (spare, f) refl in
      let i = ih (kept-Kept their x (λ g. sym q ∙ l')) in omega (arith, q, l, l', c, d, i)

  answers :
      {n : ℕ} {previous : Option DhtSnapshot} {their : DhtSnapshot}
      → Exchange store n previous their
      → Kept previous their
      → n + level their ≤ 2 + spare previous
  answers {previous = previous} {their = their} done k =
      let b = level-bound their in let c = spare-bound previous in omega (arith, b)
  answers {previous = previous} {their = their}
        (answer {n = n} dht s arc_set limit action used x e c rest) k =
      one_answer n previous their x action k
        (handle_snapshot-Progress store dht s arc_set limit their previous action used e) c
        (answers rest)

  -- An exchange that begins with a snapshot that is answered by a peer that has kept none has at most
  -- three answers with a snapshot, fewer the more detailed the first one is, whatever the two peers
  -- store meanwhile.
  pub Exchange-level :
      (n : ℕ) (their : DhtSnapshot) → Exchange store n none their → n + level their ≤ 3
  unfolding is_final
  Exchange-level n their x = let p = answers x (λ e. absurd (cc e)) in omega (arith, p)
