-- ===== src/Gossip/Storage/Inside.antt =====
-- Where the new storage arc of an agent lies (crates/gossip/src/storage_arc.rs).
use kitsune.Prelude.{
  ℕ, ◌*◌, ◌/◌, ◌<◌, ◌||◌, Bool, true, Option, none, some, List, [], ◌∷◌, ◌++◌, All, if◌then◌else◌,
  Bool-cases, inl, inr, ◌≡◌, refl, ap, sym, ◌∙◌, arith,
}
use kitsune.Prelude.Outcome.{ok, ok-injective}
use kitsune.Prelude.Words.{IsU32}
use kitsune.Prelude.Sets.{member-intersection}
use kitsune.Prelude.Sets.Subsets.{intersection-IsSetBelow}
use kitsune.Arc.{DhtArc, IsArc, empty, arc, contains}
use kitsune.Arc.Distance.{contains-iff-Covers}
use kitsune.ArcSet.{
  ArcSet, IsArcSet, sector_size, factor, new, as_arcs, includes_sector_index, intersection,
}
use kitsune.ArcSet.Cover.{IsAligned}
use kitsune.ArcSet.Build.{any_contains, new-members}
use kitsune.ArcSet.Whole.{new-IsArcSet}
use kitsune.ArcSet.Arcs.{as_arcs-contain}
use kitsune.Gossip.Host.{LocalAgent}
use kitsune.Gossip.Storage.Chosen.{chosen-All}
use kitsune.Gossip.Storage.{same_arc, widest, grown, full_one, new_storage_arc}

-- A location of an aligned arc, and the start of its sector.
contains-sector :
    (a : DhtArc) (loc : ℕ)
    → IsAligned a
    → IsU32 loc
    → contains a loc ≡ contains a (loc / sector_size * sector_size)
contains-sector empty loc h l = ground (
  arith,
  contains-iff-Covers empty loc tt l,
  contains-iff-Covers empty (loc / sector_size * sector_size) tt (omega arith),
)
contains-sector (arc s e) loc h l = ground (
  arith,
  contains-iff-Covers (arc s e) loc (h.0, h.1) l,
  contains-iff-Covers (arc s e) (loc / sector_size * sector_size) (h.0, h.1) (omega arith),
)

-- An aligned arc whose sectors are all of a set.
Fits : ArcSet → DhtArc → Type 0
Fits s a =
    IsAligned a
    × ((k : ℕ)
        → k < factor
        → contains a (k * sector_size) ≡ true
        → includes_sector_index s k ≡ true)

each-Fits :
    (s : ArcSet) (arcs : List DhtArc)
    → All IsAligned arcs
    → ((k : ℕ)
        → k < factor
        → any_contains arcs (k * sector_size) ≡ true
        → includes_sector_index s k ≡ true)
    → All (Fits s) arcs
unfolding Fits
each-Fits s [] h q = tt
each-Fits s (a ∷ arcs) (h, hs) q =
    ((h, λ k l c. q k l (rw c refl)), each-Fits s arcs hs (λ k l c. q k l (ground (arith, c))))

as_arcs-Fits : (s : ArcSet) → IsArcSet s → All (Fits s) (as_arcs s)
as_arcs-Fits s v =
    each-Fits s (as_arcs s) (as_arcs-contain s 0 v (omega arith)).0
      (λ k l c. sym ((as_arcs-contain s k v l).1) ∙ c)

-- The set that `new` makes of aligned arcs, all its sectors together.
aligned_sectors :
    (arcs : List DhtArc)
    → All IsAligned arcs
    → (s : ArcSet) × (new arcs ≡ ok s)
      × IsArcSet s
      × ((k : ℕ) → k < factor → includes_sector_index s k ≡ any_contains arcs (k * sector_size))
aligned_sectors arcs h =
    let (s, e, m) = new-members arcs 0 h (omega arith) in
    (
      s,
      e,
      new-IsArcSet arcs s (aligned-IsArc arcs h) e,
      λ k l.
          let (t, f, n) = new-members arcs k h l in
          ap (λ r. includes_sector_index r k) (ok-injective (sym e ∙ f)) ∙ n,
    )
  where
    aligned-IsArc : (arcs : List DhtArc) → All IsAligned arcs → All IsArc arcs
    aligned-IsArc [] h = tt
    aligned-IsArc (empty ∷ arcs) (h, hs) = (tt, aligned-IsArc arcs hs)
    aligned-IsArc (arc s e ∷ arcs) (h, hs) = ((h.0, h.1), aligned-IsArc arcs hs)

any_contains-sector :
    (arcs : List DhtArc) (loc : ℕ)
    → All IsAligned arcs
    → IsU32 loc
    → any_contains arcs loc ≡ any_contains arcs (loc / sector_size * sector_size)
any_contains-sector [] loc h l = refl
any_contains-sector (a ∷ arcs) loc (h, hs) l =
    rw (contains-sector a loc h l, any_contains-sector arcs loc hs l) refl

-- What the sets of two lists of aligned arcs have in common lies in both.
common-Fits :
    (s t : ArcSet) (ss ts : List DhtArc) (new_arc : DhtArc) (loc : ℕ)
    → All IsAligned ss
    → All IsAligned ts
    → ((k : ℕ) → k < factor → includes_sector_index s k ≡ any_contains ss (k * sector_size))
    → ((k : ℕ) → k < factor → includes_sector_index t k ≡ any_contains ts (k * sector_size))
    → Fits (intersection s t) new_arc
    → IsU32 loc
    → contains new_arc loc ≡ true
    → (any_contains ss loc ≡ true) × (any_contains ts loc ≡ true)
unfolding Fits includes_sector_index intersection
common-Fits s t ss ts new_arc loc hs ht ms mt (al, fits) l c =
    let k = loc / sector_size in
    let i = fits k (omega arith) (sym (contains-sector new_arc loc al l) ∙ c) in
    let m = member-intersection k s.inner t.inner in
    (
      any_contains-sector ss loc hs l ∙ sym (ms k (omega arith)) ∙ ground (arith, m, i),
      any_contains-sector ts loc ht l ∙ sym (mt k (omega arith)) ∙ ground (arith, m, i),
    )

intersection-IsArcSet : (s t : ArcSet) → IsArcSet s → IsArcSet (intersection s t)
unfolding intersection
intersection-IsArcSet s t v = intersection-IsSetBelow factor s.inner t.inner v

Fits-IsAligned : (s : ArcSet) (a : DhtArc) → Fits s a → IsAligned a
unfolding Fits
Fits-IsAligned s a f = f.0

any_contains-snoc :
    (arcs : List DhtArc) (a : DhtArc) (loc : ℕ)
    → any_contains (arcs ++ a ∷ []) loc ≡ (any_contains arcs loc || contains a loc)
any_contains-snoc [] a loc = ground arith
any_contains-snoc (b ∷ arcs) a loc = rw (any_contains-snoc arcs a loc) (ground arith)

snoc-All :
    (arcs : List DhtArc) (a : DhtArc)
    → All IsAligned arcs
    → IsAligned a
    → All IsAligned (arcs ++ a ∷ [])
snoc-All [] a h v = (v, tt)
snoc-All (b ∷ arcs) a (h, hs) v = (h, snoc-All arcs a hs v)

-- The storage arc keeps to what the agent wants, and to what it has or is in sync.
abbrev pub IsInside : List DhtArc → LocalAgent → DhtArc → Type 0
IsInside synced_arcs a new_arc =
    IsAligned new_arc
    × ((loc : ℕ)
        → IsU32 loc
        → contains new_arc loc ≡ true
        → (contains a.tgt_storage_arc loc ≡ true)
          × ((any_contains synced_arcs loc || contains a.cur_storage_arc loc) ≡ true))

-- Where the synced arcs and the target and current storage arcs of the agent are of whole sectors,
-- finding the new storage arc of the agent is no error, with sharding or without. If there is one, it is
-- of whole sectors, and each of its locations lies in the target arc, and in one of the synced arcs or
-- the current one.
pub new_storage_arc_lem :
    (sharding : Bool) (synced_arcs : List DhtArc) (a : LocalAgent)
    → All IsAligned synced_arcs
    → IsAligned a.tgt_storage_arc
    → IsAligned a.cur_storage_arc
    → (r : Option DhtArc) × (new_storage_arc sharding synced_arcs a ≡ ok r)
      × ((new_arc : DhtArc) → r ≡ some new_arc → IsInside synced_arcs a new_arc)
unfolding new_storage_arc
new_storage_arc_lem sharding synced_arcs a hs ht hc =
    elim (Bool-cases (same_arc a.tgt_storage_arc a.cur_storage_arc)) [
      | inl e ↦ (none, rw (new_storage_arc, e) refl, λ new_arc q. absurd cc)
      | inr e ↦
          let target = a.tgt_storage_arc ∷ [] in
          let grow = synced_arcs ++ a.cur_storage_arc ∷ [] in
          let hg = snoc-All synced_arcs a.cur_storage_arc hs hc in
          let (t, p, vt, mt) = aligned_sectors target (ht, tt) in
          let (s, q, vs, ms) = aligned_sectors grow hg in
          let i = intersection s t in
          (
            (if sharding
                then (if same_arc a.cur_storage_arc empty
                    then widest (as_arcs i)
                    else grown a.cur_storage_arc (as_arcs i))
                else full_one (as_arcs i)),
            rw (new_storage_arc, e, p, q) refl,
            λ new_arc r.
                let f =
                  chosen-All (Fits i) sharding a.cur_storage_arc (as_arcs i)
                    (as_arcs-Fits i (intersection-IsArcSet s t vs)) new_arc r in
                (
                  Fits-IsAligned i new_arc f,
                  λ loc l c.
                      let (x, y) =
                        common-Fits s t grow target new_arc loc hg (ht, tt) ms mt f l c in
                      (
                        ground (arith, y),
                        sym (any_contains-snoc synced_arcs a.cur_storage_arc loc) ∙ x,
                      ),
                ),
          )
    ]
