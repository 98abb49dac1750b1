-- ===== src/ArcSet/Build.antt =====
-- `ArcSet::new`, `intersection` and `without_sector_indices` of crates/dht/src/arc_set.rs.
use kitsune.Prelude.{
  ℕ, ◌*◌, ◌<◌, Bool, true, false, ◌||◌, List, [], ◌∷◌, length, All, ◌==◌, ==_iff, ◌≡◌, refl, ap,
  ◌∙◌, arith, inl, inr, Bool-cases,
}
use kitsune.Prelude.Outcome.{ok, ◌>>=◌}
use kitsune.Prelude.Sets.{member, IsSetBelow, full-member, IsSetBelow-nil}
use kitsune.Arc.{DhtArc, IsArc, empty, arc, contains}
use kitsune.ArcSet.{ArcSet, sector_size, factor, add_arc, add_arcs, new, includes_sector_index}
use kitsune.ArcSet.Cover.{IsAligned, add_arc-IsSetBelow, add_arc-members}

-- Some arc of the list contains the location.
abbrev pub any_contains : List DhtArc → ℕ → Bool
any_contains [] loc = false
any_contains (a ∷ arcs) loc = contains a loc || any_contains arcs loc

IsAligned-IsArc : (a : DhtArc) → IsAligned a → IsArc a
IsAligned-IsArc empty h = tt
IsAligned-IsArc (arc s e) h = (h.0, h.1)

module _ (a : DhtArc) (arcs : List DhtArc) (inner : List ℕ) where
  pub add_arcs-stop : (length inner == factor) ≡ true → add_arcs (a ∷ arcs) inner ≡ ok inner
  unfolding add_arcs
  add_arcs-stop h = rw (h, add_arcs)

  pub add_arcs-more :
      (length inner == factor) ≡ false
      → add_arcs (a ∷ arcs) inner ≡ (add_arc a inner >>= λ mid. add_arcs arcs mid)
  unfolding add_arcs
  add_arcs-more h = rw (h, add_arcs)

  -- One arc of the list, when the set is not full.
  pub add_arcs-added :
      {mid : List ℕ}
      → (length inner == factor) ≡ false
      → add_arc a inner ≡ ok mid
      → add_arcs (a ∷ arcs) inner ≡ add_arcs arcs mid
  add_arcs-added h e = add_arcs-more h ∙ ap (λ r. r >>= λ mid. add_arcs arcs mid) e

add_arcs-members :
    (arcs : List DhtArc) (inner : List ℕ) (k : ℕ)
    → All IsAligned arcs
    → IsSetBelow factor inner
    → k < factor
    → (out : List ℕ) × (add_arcs arcs inner ≡ ok out)
      × (member k out ≡ (any_contains arcs (k * sector_size) || member k inner))
unfolding add_arcs
add_arcs-members [] inner k h v hk = (inner, refl, refl)
add_arcs-members (a ∷ arcs) inner k h v hk = elim (Bool-cases (length inner == factor)) [
  | inl stop ↦ (
    inner,
    add_arcs-stop a arcs inner stop,
    ground (arith, full-member factor k inner v ((==_iff _ _).0 stop) hk),
  )
  | inr more ↦
      let (mid, added, m) = add_arc-members a inner k h.0 hk in
      let (out, e, n) =
        add_arcs-members arcs mid k h.1 (add_arc-IsSetBelow a inner (IsAligned-IsArc a h.0) v added)
          hk in
      (
        out,
        add_arcs-added a arcs inner more added ∙ e,
        n ∙ ap (λ t. any_contains arcs (k * sector_size) || t) m ∙ ground arith,
      )
]

-- `new` accepts arcs of whole sectors, and the set then includes exactly the sectors whose first
-- location one of the arcs contains, also where the loop stops early on a full set.
pub new-members :
    (arcs : List DhtArc) (k : ℕ)
    → All IsAligned arcs
    → k < factor
    → (s : ArcSet) × (new arcs ≡ ok s)
      × (includes_sector_index s k ≡ any_contains arcs (k * sector_size))
unfolding new includes_sector_index member
new-members arcs k h hk =
    let (out, e, m) = add_arcs-members arcs [] k h (IsSetBelow-nil factor) hk in
    (record { inner = out }, rw e, m ∙ ground arith)
