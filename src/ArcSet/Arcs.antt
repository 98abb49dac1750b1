-- ===== src/ArcSet/Arcs.antt =====
-- `as_arcs` of crates/dht/src/arc_set.rs, the way back from sectors to arcs.
use kitsune.Prelude.{
  ℕ, ◌+◌, ◌-◌, ◌*◌, ◌≤◌, ◌<◌, true, false, ◌&&◌, ◌||◌, List, [], ◌∷◌, length, All, ltb, leb, ◌==◌,
  ==_iff, ◌≡◌, refl, ap, ◌∙◌, sym, arith, inl, inr, Bool-cases,
}
use kitsune.Prelude.Outcome.{ok}
use kitsune.Prelude.Sets.{member, full-member}
use kitsune.Arc.{arc, full, contains}
use kitsune.Arc.Distance.{contains-iff-Covers}
use kitsune.ArcSet.{
  ArcSet, IsArcSet, sector_size, factor, new, includes_sector_index, insert_sorted, sort,
  sectors_arc, runs, runs_of, as_arcs,
}
use kitsune.ArcSet.Cover.{IsAligned}
use kitsune.ArcSet.Build.{any_contains, new-members}

-- The saturating product and the test after it give the last location of the run.
sectors_arc-eq :
    (s e : ℕ) → e < factor → sectors_arc s e ≡ arc (s * sector_size) ((e + 1) * sector_size - 1)
unfolding sectors_arc
sectors_arc-eq s e h = ap (arc (s * sector_size)) (ground arith)

sectors_arc-IsAligned : (s e : ℕ) → s ≤ e → e < factor → IsAligned (sectors_arc s e)
sectors_arc-IsAligned s e h k = rw (sectors_arc-eq s e k) (omega arith)

-- The arc of a run of sectors contains the first locations of exactly those.
sectors_arc-contains :
    (s e k : ℕ)
    → s ≤ e
    → e < factor
    → k < factor
    → contains (sectors_arc s e) (k * sector_size) ≡ (leb s k && leb k e)
sectors_arc-contains s e k h l m = rw (sectors_arc-eq s e l) (
    ground (
      arith,
      contains-iff-Covers (arc (s * sector_size) ((e + 1) * sector_size - 1)) (k * sector_size)
          (omega arith) (omega arith),
    ))

module _ (s e y : ℕ) (ys : List ℕ) where
  runs-next : (e + 1 == y) ≡ true → runs s e (y ∷ ys) ≡ runs s y ys
  unfolding runs
  runs-next h = rw (h, runs)

  runs-break : (e + 1 == y) ≡ false → runs s e (y ∷ ys) ≡ sectors_arc s e ∷ runs y y ys
  unfolding runs
  runs-break h = rw (h, runs)

  runs-nil : runs s e [] ≡ sectors_arc s e ∷ []
  unfolding runs
  runs-nil = refl

runs-IsAligned :
    (l : List ℕ) (s e : ℕ)
    → s ≤ e
    → e < factor
    → All (λ x. x < factor) l
    → All IsAligned (runs s e l)
unfolding runs
runs-IsAligned [] s e h k a = (sectors_arc-IsAligned s e h k, tt)
runs-IsAligned (y ∷ ys) s e h k a = elim (Bool-cases (e + 1 == y)) [
  | inl n ↦ rw (runs-next s e y ys n) (runs-IsAligned ys s y (ground arith) a.0 a.1)
  | inr n ↦
      rw (runs-break s e y ys n)
        (sectors_arc-IsAligned s e h k, runs-IsAligned ys y y (omega arith) a.0 a.1)
]

runs-contain :
    (l : List ℕ) (s e k : ℕ)
    → s ≤ e
    → e < factor
    → All (λ x. x < factor) l
    → k < factor
    → any_contains (runs s e l) (k * sector_size) ≡ ((leb s k && leb k e) || member k l)
unfolding runs member
runs-contain [] s e k h l a m = rw (sectors_arc-contains s e k h l m)
runs-contain (y ∷ ys) s e k h l a m = elim (Bool-cases (e + 1 == y)) [
  | inl n ↦
      rw (runs-next s e y ys n) (runs-contain ys s y k (ground arith) a.0 a.1 m ∙ ground arith)
  | inr n ↦
      rw (runs-break s e y ys n, sectors_arc-contains s e k h l m)
        (rw (runs-contain ys y y k (omega arith) a.0 a.1 m) (ground arith))
]

member-insert_sorted :
    (x k : ℕ) (l : List ℕ) → member k (insert_sorted x l) ≡ (x == k || member k l)
unfolding insert_sorted member
member-insert_sorted x k [] = refl
member-insert_sorted x k (y ∷ ys) = ground (arith, member-insert_sorted x k ys)

member-sort : (k : ℕ) (l : List ℕ) → member k (sort l) ≡ member k l
unfolding sort member
member-sort k [] = refl
member-sort k (x ∷ xs) =
    member-insert_sorted x k (sort xs) ∙ ap (λ t. x == k || t) (member-sort k xs)

insert_sorted-All :
    (P : ℕ → Type 0) (x : ℕ) (l : List ℕ) → P x → All P l → All P (insert_sorted x l)
unfolding insert_sorted
insert_sorted-All P x [] p a = (p, tt)
insert_sorted-All P x (y ∷ ys) p a = elim (Bool-cases (ltb y x)) [
  | inl h ↦ rw h (a.0, insert_sorted-All P x ys p a.1)
  | inr h ↦ rw h (p, a)
]

sort-All : (P : ℕ → Type 0) (l : List ℕ) → All P l → All P (sort l)
unfolding sort
sort-All P [] a = tt
sort-All P (x ∷ xs) a = insert_sorted-All P x (sort xs) a.0 (sort-All P xs a.1)

runs_of-contain :
    (l : List ℕ) (k : ℕ)
    → All (λ x. x < factor) l
    → k < factor
    → All IsAligned (runs_of l) × (any_contains (runs_of l) (k * sector_size) ≡ member k l)
unfolding runs_of member
runs_of-contain [] k a h = (tt, refl)
runs_of-contain (x ∷ xs) k a h = (
  runs-IsAligned xs x x (omega arith) a.0 a.1,
  runs-contain xs x x k (omega arith) a.0 a.1 h ∙ ground arith,
)

full-contains : (k : ℕ) → k < factor → contains full (k * sector_size) ≡ true
full-contains k h =
    ground (arith, contains-iff-Covers full (k * sector_size) (omega arith) (omega arith))

member-empty : (k : ℕ) (l : List ℕ) → (length l == 0) ≡ true → member k l ≡ false
unfolding member
member-empty k [] h = refl
member-empty k (x ∷ xs) h = absurd (omega (arith, (==_iff (length (x ∷ xs)) 0).0 h))

module _ (s : ArcSet) where
  as_arcs-none : (length s.inner == 0) ≡ true → as_arcs s ≡ []
  unfolding as_arcs
  as_arcs-none h = rw h

  as_arcs-full :
      (length s.inner == 0) ≡ false → (length s.inner == 512) ≡ true → as_arcs s ≡ full ∷ []
  unfolding as_arcs
  as_arcs-full g h = rw (g, h)

  as_arcs-runs :
      (length s.inner == 0) ≡ false
      → (length s.inner == 512) ≡ false
      → as_arcs s ≡ runs_of (sort s.inner)
  unfolding as_arcs
  as_arcs-runs g h = rw (g, h)

pub as_arcs-contain :
    (s : ArcSet) (k : ℕ)
    → IsArcSet s
    → k < factor
    → All IsAligned (as_arcs s)
      × (any_contains (as_arcs s) (k * sector_size) ≡ includes_sector_index s k)
unfolding includes_sector_index
as_arcs-contain s k v h = elim (Bool-cases (length s.inner == 0)) [
  | inl z ↦ rw (as_arcs-none s z) (tt, sym (member-empty k s.inner z))
  | inr nz ↦ elim (Bool-cases (length s.inner == 512)) [
    | inl f ↦ rw (as_arcs-full s nz f) (
      omega arith,
      rw (full-contains k h) (sym (full-member factor k s.inner v ((==_iff _ _).0 f) h)),
    )
    | inr nf ↦
        let (a, c) =
          runs_of-contain (sort s.inner) k (sort-All (λ x. x < factor) s.inner v.below) h in
        rw (as_arcs-runs s nz nf) (a, c ∙ member-sort k s.inner)
  ]
]

-- The arcs of a set of sectors are accepted by `new`, which gives a set that includes the same
-- sectors.
pub new-as_arcs :
    (s : ArcSet) (k : ℕ)
    → IsArcSet s
    → k < factor
    → (t : ArcSet) × (new (as_arcs s) ≡ ok t)
      × (includes_sector_index t k ≡ includes_sector_index s k)
new-as_arcs s k v h =
    let (a, c) = as_arcs-contain s k v h in
    let (t, e, m) = new-members (as_arcs s) k a h in (t, e, m ∙ c)
