-- ===== src/ArcSet/Whole.antt =====
-- What `ArcSet::new` of crates/dht/src/arc_set.rs makes of arcs that need not be aligned.
use mathlib.Core.Path.{subst}
use kitsune.Prelude.{
  sym, ℕ, ◌+◌, ◌-◌, ◌*◌, ◌/◌, ◌%◌, ◌<◌, Bool, false, ◌||◌, ltb, List, [], ◌∷◌, length, All, ◌==◌,
  ==_iff, ◌≡◌, ◌⊎◌, refl, ap, ◌∙◌, arith, inl, inr, Bool-cases,
}
use kitsune.Prelude.Outcome.{Outcome, K2Error, other_with, ok, err, ◌>>=◌, ok-injective}
use kitsune.Prelude.Words.{u32_mod, IsU32}
use kitsune.Prelude.Sets.{member, IsSetBelow, full-member, IsSetBelow-nil}
use kitsune.Arc.{DhtArc, IsArc, empty, arc, contains}
use kitsune.Arc.Distance.{contains-iff-Covers}
use kitsune.ArcSet.{
  ArcSet, IsArcSet, sector_size, factor, num_sectors_covered, cover, add_arc, add_arcs, new,
  includes_sector_index,
}
use kitsune.ArcSet.Cover.{cover-start, num_sectors-eq, member-cover, add_arc-IsSetBelow}
use kitsune.ArcSet.Build.{add_arcs-stop, add_arcs-more, add_arcs-added}

-- The number of locations of the arc is a multiple of the sector size.
abbrev pub IsWhole : DhtArc → Type 0
IsWhole empty = Unit
IsWhole (arc s e) = (e + u32_mod - s) % u32_mod % sector_size ≡ sector_size - 1

-- The arc contains the location that is as far into the sector as the arc's start is into its own.
abbrev pub covers_sector : DhtArc → ℕ → Bool
covers_sector empty k = false
covers_sector (arc s e) k = contains (arc s e) (k * sector_size + s % sector_size)

abbrev pub any_covers : List DhtArc → ℕ → Bool
any_covers [] k = false
any_covers (a ∷ arcs) k = covers_sector a k || any_covers arcs k

covers_sector-eq :
    (s e k : ℕ)
    → IsU32 s
    → IsU32 e
    → k < factor
    → covers_sector (arc s e) k
      ≡ ltb ((k + factor - s / sector_size) % factor) (num_sectors_covered s e)
covers_sector-eq s e k hs he hk = ground (
  arith,
  contains-iff-Covers (arc s e) (k * sector_size + s % sector_size) (hs, he) (omega arith),
  num_sectors-eq s e hs he,
)

-- What becomes of an arc added to a set: its sectors, or an error where it is not whole.
add_arc-decided :
    (a : DhtArc) (inner : List ℕ)
    → IsArc a
    → ((out : List ℕ) × (add_arc a inner ≡ ok out)
        × IsWhole a
        × ((k : ℕ) → k < factor → member k out ≡ (covers_sector a k || member k inner)))
      ⊎ ((e : K2Error) × (add_arc a inner ≡ err e) × ¬ IsWhole a)
unfolding add_arc
add_arc-decided empty inner h = inl (inner, refl, tt, λ k l. refl)
add_arc-decided (arc s e) inner (hs, he) =
    let n = num_sectors_covered s e in
    let c = cover-start n s inner hs in
    let q = num_sectors-eq s e hs he in
    elim (Bool-cases ((e + u32_mod - s) % u32_mod % sector_size == sector_size - 1)) [
      | inl z ↦ inl (
        (cover n s inner).0,
        ground (arith, c, q, z),
        (==_iff _ _).0 z,
        λ k l.
            rw (covers_sector-eq s e k hs he l) (member-cover n s k inner (omega (arith, q)) hs l),
      )
      | inr z ↦ inr (
        other_with "Invalid arc, expected end at {start} but arc specifies {end}"
            ((cover n s inner).1 ∷ e ∷ []),
        ground (arith, c, q, z),
        λ w. ground (arith, z, w),
      )
    ]

-- What `new` makes of the arcs: either a set with exactly the sectors of the arcs, where all of them
-- are whole or the set is full, or an error, where one of them is not whole.
abbrev pub Decided : List DhtArc → List ℕ → Outcome (List ℕ) → Type 0
Decided arcs inner r =
    ((out : List ℕ) × (r ≡ ok out)
      × IsSetBelow factor out
      × ((k : ℕ) → k < factor → member k out ≡ (any_covers arcs k || member k inner))
      × (All IsWhole arcs ⊎ (length out ≡ factor)))
    ⊎ ((e : K2Error) × (r ≡ err e) × ¬ All IsWhole arcs)

add_arcs-Decided :
    (arcs : List DhtArc) (inner : List ℕ)
    → All IsArc arcs
    → IsSetBelow factor inner
    → Decided arcs inner (add_arcs arcs inner)
unfolding add_arcs
add_arcs-Decided [] inner h v = inl (inner, refl, v, λ k l. refl, inl tt)
add_arcs-Decided (a ∷ arcs) inner (h, hs) v = elim (Bool-cases (length inner == factor)) [
  | inl stop ↦
      let f = (==_iff _ _).0 stop in
      inl (
        inner,
        add_arcs-stop a arcs inner stop,
        v,
        λ k l. ground (arith, full-member factor k inner v f l),
        inr f,
      )
  | inr more ↦ elim (add_arc-decided a inner h) [
    | inr (e, q, n) ↦ inr (
      e,
      add_arcs-more a arcs inner more ∙ ap (λ r. r >>= λ mid. add_arcs arcs mid) q,
      λ w. n w.0,
    )
    | inl (mid, q, w, m) ↦ elim (add_arcs-Decided arcs mid hs (add_arc-IsSetBelow a inner h v q)) [
      | inr (e, r, n) ↦ inr (e, add_arcs-added a arcs inner more q ∙ r, λ x. n x.1)
      | inl (out, r, b, c, full) ↦ inl (
        out,
        add_arcs-added a arcs inner more q ∙ r,
        b,
        λ k l. ground (arith, c k l, m k l),
        elim full [ inl x ↦ inl (w, x) | inr x ↦ inr x ],
      )
    ]
  ]
]

-- For arcs with bounds of 32 bits, aligned or not, `new` never panics. Either it returns a set of sector
-- indices below 512, none twice, namely those for which some arc contains the location that is as far
-- into the sector as the arc's start is into its own; and then the number of locations of every arc is
-- a multiple of the sector size, or the set is full. Or it is an error, and then the number of locations
-- is not such a multiple for every arc.
pub new_lem :
    (arcs : List DhtArc)
    → All IsArc arcs
    → ((s : ArcSet) × (new arcs ≡ ok s)
        × IsArcSet s
        × ((k : ℕ) → k < factor → includes_sector_index s k ≡ any_covers arcs k)
        × (All IsWhole arcs ⊎ (length s.inner ≡ factor)))
      ⊎ ((e : K2Error) × (new arcs ≡ err e) × ¬ All IsWhole arcs)
unfolding new includes_sector_index member
new_lem arcs h = elim (add_arcs-Decided arcs [] h (IsSetBelow-nil factor)) [
  | inl (out, r, b, c, full) ↦
      inl (record { inner = out }, rw r, b, λ k l. c k l ∙ ground arith, full)
  | inr (e, r, n) ↦ inr (e, rw r, n)
]

-- What `new` returns is a set of sectors.
pub new-IsArcSet : (arcs : List DhtArc) (s : ArcSet) → All IsArc arcs → new arcs ≡ ok s → IsArcSet s
new-IsArcSet arcs s h e = elim (new_lem arcs h) [
  | inl (t, f, v, m, w) ↦ subst IsArcSet (ok-injective (sym f ∙ e)) v
  | inr (x, f, n) ↦ absurd cc
]
