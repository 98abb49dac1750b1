-- ===== src/Gossip/Burst/Window.antt =====
-- The times that `recent` keeps, and those of a peer after a sweep or a request
-- (crates/gossip/src/burst.rs).
use kitsune.Prelude.{
  true, false, none, List, [], ◌∷◌, ◌++◌, length, ◌==◌, ==_iff, Bool-cases, ◌≡◌, inl, inr, refl, ap,
  sym, ◌∙◌, arith,
}
use kitsune.Prelude.Maps.{Map, get, select, IsMap}
use kitsune.Prelude.Maps.Select.{select-select, select-append}
use kitsune.Timestamp.{Timestamp, lt_i64}
use kitsune.Gossip.{Url, K2GossipConfig}
use kitsune.Gossip.Burst.{times_of, threshold, recent, cleanup}

-- The second window does not begin before the first.
abbrev pub NotBefore : Timestamp → Timestamp → Type 0
NotBefore s t = lt_i64 t s ≡ false

later_in : (s t x : Timestamp) → NotBefore s t → lt_i64 t x ≡ true → lt_i64 s x ≡ true
later_in s t x h k = ground arith

-- A window within a window.
pub recent_within :
    (s t : Timestamp) (ts : List Timestamp) → NotBefore s t → recent t (recent s ts) ≡ recent t ts
unfolding recent
recent_within s t ts h = select-select (lt_i64 s) (lt_i64 t) ts (λ x. later_in s t x h)

pub recent-append :
    (t : Timestamp) (xs ys : List Timestamp) → recent t (xs ++ ys) ≡ (recent t xs ++ recent t ys)
unfolding recent
recent-append t xs ys = select-append (lt_i64 t) xs ys

no_times : (ts : List Timestamp) → (length ts == 0) ≡ true → ts ≡ []
no_times [] h = refl
no_times (t ∷ ts) h = absurd (ground arith)

module _ (config : K2GossipConfig) (now : Timestamp) where
  get-cleanup :
      (u : Url) (b : Map (List Timestamp)) → get u b ≡ none → get u (cleanup config now b) ≡ none
  unfolding get cleanup
  get-cleanup u [] h = refl
  get-cleanup u ((k, ts) ∷ b) h = elim (Bool-cases (k == u)) [
    | inl e ↦ absurd (let q = rw (e) at h in cc)
    | inr e ↦ let ih = get-cleanup u b (rw (e) at h) in ground (arith, e, ih)
  ]

  pub cleanup-IsMap : (b : Map (List Timestamp)) → IsMap b → IsMap (cleanup config now b)
  unfolding get cleanup
  cleanup-IsMap [] h = tt
  cleanup-IsMap ((k, ts) ∷ b) (n, h) =
      elim (Bool-cases (length (recent (threshold config now) ts) == 0)) [
        | inl e ↦ rw e (cleanup-IsMap b h)
        | inr e ↦ rw e (get-cleanup k b n, cleanup-IsMap b h)
      ]

  -- Without an entry a peer has no times.
  times_none : (u : Url) (b : Map (List Timestamp)) → get u b ≡ none → times_of u b ≡ []
  times_none u b h = rw (times_of, h) refl

  -- A sweep takes away from each peer what is out of the window, and nothing else.
  pub times_of-cleanup :
      (u : Url) (b : Map (List Timestamp))
      → IsMap b
      → times_of u (cleanup config now b) ≡ recent (threshold config now) (times_of u b)
  unfolding get cleanup recent select
  times_of-cleanup u [] h = refl
  times_of-cleanup u ((k, ts) ∷ b) (n, h) =
      let ih = times_of-cleanup u b h in
      elim (Bool-cases (length (recent (threshold config now) ts) == 0)) [
        | inl z ↦ elim (Bool-cases (k == u)) [
          | inl e ↦
              let g : get u b ≡ none = ap (λ i. get i b) (sym ((==_iff k u).0 e)) ∙ n in
              rw (z, times_of, e) (times_none u _ (get-cleanup u b g) ∙ sym (no_times _ z))
          | inr e ↦ rw (z, times_of, e) ih
        ]
        | inr z ↦ elim (Bool-cases (k == u)) [
          | inl e ↦ rw (z, times_of, e) refl
          | inr e ↦ rw (z, times_of, e) ih
        ]
      ]
