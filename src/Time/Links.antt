-- ===== src/Time/Links.antt =====
-- `layout_partials` of crates/dht/src/time.rs at any time: every slice starts where the one before
-- ends.
use mathlib.Core.Path.{subst}
use native.Mathlib.Nat.{one-le-pow}
use kitsune.Prelude.{
  ℕ, zero, suc, ◌+◌, ◌-◌, ◌%◌, ◌^◌, ◌≤◌, ◌<◌, List, [], ◌∷◌, ◌++◌, true, false, none, some, ltb,
  leb, ◌≡◌, refl, sym, arith, Bool-cases, Option-cases, inl, inr,
}
use kitsune.Prelude.Outcome.{ok, panic, ◌>>=◌, >>=-eq-ok, ok-injective}
use kitsune.Timestamp.{Timestamp, Duration, lt_i64, add_duration, sub_timestamp}
use kitsune.Time.{
  slice_duration, residual_duration_for_factor, push_slices, slice_count, partials_below,
  layout_partials,
}
use kitsune.Time.Sizes.{slice_duration-eq}

-- Pairs of a start and a size that follow one another.
abbrev pub Links : Timestamp → List (Timestamp × ℕ) → Type 0
Links s [] = Unit
Links s ((t, i) ∷ ps) =
    (t ≡ s)
    × (lt_i64 s (add_duration s (slice_duration i)) ≡ true)
    × Links (add_duration s (slice_duration i)) ps

abbrev links_end : Timestamp → List (Timestamp × ℕ) → Timestamp
links_end s [] = s
links_end s ((t, i) ∷ ps) = links_end (add_duration s (slice_duration i)) ps

Links-append :
    (s : Timestamp) (ps qs : List (Timestamp × ℕ))
    → Links s ps
    → Links (links_end s ps) qs
    → Links s (ps ++ qs)
Links-append s [] qs h k = k
Links-append s ((t, i) ∷ ps) qs (e, l, h) k =
    (e, l, Links-append (add_duration s (slice_duration i)) ps qs h k)

-- The distance of a pattern from the least `i64`.
abbrev offset : ℕ → ℕ
offset t = (t + 2 ^ 63) % 2 ^ 64

-- A duration that fits between a time and the largest one leads to a later time.
add_duration-later :
    (s d r : ℕ)
    → 0 < d
    → d ≤ r
    → offset s + r < 2 ^ 64
    → (lt_i64 s (add_duration s d) ≡ true) × (offset (add_duration s d) + (r - d) < 2 ^ 64)
unfolding add_duration
add_duration-later s d r p h k = (ground arith, ground arith)

slice_duration-pos : (i : ℕ) → i < 54 → 0 < slice_duration i
slice_duration-pos i h = omega (arith, slice_duration-eq i h, one-le-pow i 2 (omega arith))

-- The result of `push_slices`: the slices, the new `start_at` and the new `recent_time`.
abbrev Pushed : Type 0
Pushed = List (Timestamp × ℕ) × Timestamp × Duration

abbrev with_slice : Timestamp → ℕ → Pushed → Pushed
with_slice s i q = ((s, i) ∷ q.0, q.1, q.2)

module _ (i n s r : ℕ) {q : Pushed} (h : push_slices (suc n) i (slice_duration i) s r ≡ ok q) where
  push_slices-fits : slice_duration i ≤ r
  unfolding push_slices
  push_slices-fits = elim (Bool-cases (ltb r (slice_duration i))) [
    | inl b ↦ let e : panic ≡ ok q = rw (b, push_slices) at h in cc
    | inr b ↦ ground arith
  ]

  push_slices-step :
      (q' : Pushed) × (push_slices n i
          (slice_duration i)
          (add_duration s (slice_duration i))
          (r - slice_duration i)
        ≡ ok q')
      × (with_slice s i q' ≡ q)
  unfolding push_slices
  push_slices-step =
      let b : ltb r (slice_duration i) ≡ false = (let le = push_slices-fits in ground arith) in
      let e : (push_slices n i (slice_duration i) (add_duration s (slice_duration i))
              (r - slice_duration i)
            >>= λ q'. ok (with_slice s i q'))
          ≡ ok q =
        rw (b, push_slices) at h in
      let (q', e1, e2) = >>=-eq-ok _ (λ q'. ok (with_slice s i q')) e in (q', e1, ok-injective e2)

-- The slices from `s` on follow one another, and leave a time that still fits.
abbrev Linked : Timestamp → Pushed → Type 0
Linked s q = Links s q.0 × (links_end s q.0 ≡ q.1) × (offset q.1 + q.2 < 2 ^ 64)

push_slices-Linked :
    (i n s r : ℕ) {q : Pushed}
    → i < 54
    → offset s + r < 2 ^ 64
    → push_slices n i (slice_duration i) s r ≡ ok q
    → Linked s q
unfolding push_slices
push_slices-Linked i zero s r {q} small b h = subst (Linked s) (ok-injective h) (tt, refl, b)
push_slices-Linked i (suc n) s r {q} small b h =
    let (q', e, p) = push_slices-step i n s r h in
    let (later, b') =
      add_duration-later s (slice_duration i) r (slice_duration-pos i small)
        (push_slices-fits i n s r h) b in
    let (l, m, o) =
      push_slices-Linked i n (add_duration s (slice_duration i)) (r - slice_duration i) small b'
        e in
    subst (Linked s) p ((refl, later, l), m, o)

-- A size for which there is no residual duration is refused.
slice_count-small : (i r : ℕ) {n : ℕ} → slice_count i r ≡ ok n → i < 54
unfolding slice_count residual_duration_for_factor
slice_count-small i r {n} h = elim (Bool-cases (leb 54 i)) [
  | inl b ↦ absurd (refused b)
  | inr b ↦ ground arith
]
  where
    refused : leb 54 i ≡ true → ⊥
    refused b = (let e = (rw (b, slice_count, residual_duration_for_factor) at h) in cc)

partials_below-Links :
    (i s r : ℕ) {ps : List (Timestamp × ℕ)}
    → offset s + r < 2 ^ 64
    → partials_below i s r ≡ ok ps
    → Links s ps
unfolding partials_below
partials_below-Links zero s r b h = subst (Links s) (ok-injective h) tt
partials_below-Links (suc i) s r b h =
    let (n, e, h1) = >>=-eq-ok (slice_count i r) _ h in
    let (q, f, h2) = >>=-eq-ok (push_slices n i (slice_duration i) s r) _ h1 in
    let (rest, g, h3) = >>=-eq-ok (partials_below i q.1 q.2) _ h2 in
    let (l, m, o) = push_slices-Linked i n s r (slice_count-small i r e) b f in
    subst (Links s) (ok-injective h3) (
      Links-append s q.0 rest l
        (subst (λ t. Links t rest) (sym m) (partials_below-Links i q.1 q.2 o g)))

sub_timestamp-fits :
    (t u : ℕ) {r : ℕ} → u < 2 ^ 64 → sub_timestamp t u ≡ some r → offset u + r < 2 ^ 64
unfolding sub_timestamp
sub_timestamp-fits t u {r} h e = ground arith

-- What `layout_partials` returns follows one another from where it starts.
pub layout_partials-Links :
    (factor start current : ℕ) {ps : List (Timestamp × ℕ)}
    → start < 2 ^ 64
    → layout_partials factor start current ≡ ok ps
    → Links start ps
unfolding layout_partials
layout_partials-Links factor start current {ps} h e =
    elim (Option-cases (sub_timestamp current start)) [
      | inl n ↦ absurd (refused n)
      | inr (r, q) ↦
          partials_below-Links factor start r (sub_timestamp-fits current start h q)
            (rw (q, layout_partials) at e)
    ]
  where
    refused : sub_timestamp current start ≡ none → ⊥
    refused n = (let c = (rw (n, layout_partials) at e) in cc)
