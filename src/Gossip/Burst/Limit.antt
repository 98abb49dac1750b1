-- ===== src/Gossip/Burst/Limit.antt =====
-- How many requests of a peer are accepted within a window (crates/gossip/src/burst.rs).
use kitsune.Prelude.{
  ℕ, suc, ◌+◌, ◌≤◌, Bool, true, false, not, ◌&&◌, List, [], ◌∷◌, ◌++◌, length, ◌==◌, ==_iff,
  Bool-cases, if◌then◌else◌, ◌≡◌, inl, inr, refl, ap, ◌∙◌, arith,
}
use kitsune.Prelude.Maps.{Map, IsMap, select}
use kitsune.Prelude.Maps.Select.{length-select}
use kitsune.Timestamp.{Timestamp, lt_i64}
use kitsune.Gossip.{Url, K2GossipConfig}
use kitsune.Gossip.Burst.{times_of, max_burst, threshold, recent, check_accept, cleanup}
use kitsune.Gossip.Burst.Window.{
  NotBefore, recent_within, recent-append, cleanup-IsMap, times_of-cleanup,
}
use kitsune.Gossip.Burst.Sweeps.{
  BurstEvent, asks, sweeps, full, noted, check_accept-full, check_accept-times, check_accept-IsMap,
}

module _ (config : K2GossipConfig) where
  -- No window of the events begins after `w`, and the requests have later time stamps.
  abbrev pub Within : Timestamp → List BurstEvent → Type 0
  Within w [] = Unit
  Within w (asks now url t ∷ events) =
      NotBefore (threshold config now) w × (lt_i64 w t ≡ true) × Within w events
  Within w (sweeps now ∷ events) = NotBefore (threshold config now) w × Within w events

module _ (config : K2GossipConfig) (u : Url) where
  -- How many requests of the peer are accepted.
  unfoldable pub accepted_times : List BurstEvent → Map (List Timestamp) → ℕ
  accepted_times [] b = 0
  accepted_times (asks now url t ∷ events) b =
      let rest = accepted_times events (check_accept config now url t b).1 in
      if url == u && (check_accept config now url t b).0 then suc rest else rest
  accepted_times (sweeps now ∷ events) b = accepted_times events (cleanup config now b)

  -- The times of the peer from `w` on.
  abbrev pub since : Timestamp → Map (List Timestamp) → ℕ
  since w b = length (recent w (times_of u b))

  length-recent : (w : Timestamp) (ts : List Timestamp) → length (recent w ts) ≤ length ts
  unfolding recent
  length-recent w ts = length-select (lt_i64 w) ts

  length-append : (xs ys : List Timestamp) → length (xs ++ ys) ≡ length xs + length ys
  length-append [] ys = omega arith
  length-append (x ∷ xs) ys = let ih = length-append xs ys in omega (arith, ih)

  single : (w t : Timestamp) → lt_i64 w t ≡ true → length (recent w (t ∷ [])) ≡ 1
  unfolding recent select
  single w t h = rw h refl

  length-noted :
      (w s t : Timestamp) (ts : List Timestamp)
      → NotBefore s w
      → lt_i64 w t ≡ true
      → length (recent w (noted config t (recent s ts)))
        ≡ (if full config (recent s ts) then length (recent w ts) else suc (length (recent w ts)))
  unfolding noted
  length-noted w s t ts n l = elim (Bool-cases (full config (recent s ts))) [
    | inl e ↦ rw (e, recent_within s w ts n) refl
    | inr e ↦
        rw (e, recent-append, recent_within s w ts n)
          (let p = length-append (recent w ts) (recent w (t ∷ [])) in
            let q = single w t l in omega (arith, p, q))
  ]

  room :
      (w s : Timestamp) (ts : List Timestamp)
      → NotBefore s w
      → full config (recent s ts) ≡ false
      → suc (length (recent w ts)) ≤ max_burst config
  unfolding full
  room w s ts n e =
      let p = length-recent w (recent s ts) in
      let q : length (recent w (recent s ts)) ≡ length (recent w ts) =
        ap length (recent_within s w ts n) in
      ground (arith, p, q)

  -- A request of the peer that is accepted is one more time since `w`, and there was room for it.
  Counted : Bool → ℕ → ℕ → Type 0
  Counted true before after = (after ≡ suc before) × (suc before ≤ max_burst config)
  Counted false before after = after ≡ before

  asked :
      (w s t : Timestamp) (ts : List Timestamp)
      → NotBefore s w
      → lt_i64 w t ≡ true
      → Counted
          (not (full config (recent s ts)))
          (length (recent w ts))
          (length (recent w (noted config t (recent s ts))))
  unfolding Counted
  asked w s t ts n l =
      let p = length-noted w s t ts n l in
      elim (Bool-cases (full config (recent s ts))) [
        | inl e ↦ rw e (rw (e) at p)
        | inr e ↦ rw e (rw (e) at p, room w s ts n e)
      ]

  asks-since :
      (w now : Timestamp) (url : Url) (t : Timestamp) (b : Map (List Timestamp))
      → NotBefore (threshold config now) w
      → lt_i64 w t ≡ true
      → Counted
          (url == u && (check_accept config now url t b).0)
          (since w b)
          (since w (check_accept config now url t b).1)
  unfolding Counted
  asks-since w now url t b n l = elim (Bool-cases (url == u)) [
    | inl e ↦
        let q : url ≡ u = (==_iff url u).0 e in
        let a = asked w (threshold config now) t (times_of u b) n l in
        let x = check_accept-times config now url t b u in
        let x' = rw (e) at x in
        let y = ap (λ r. r.0) (check_accept-full config now url t b) in rw (e, y, x', q) a
    | inr e ↦
        let x = check_accept-times config now url t b u in
        let x' = rw (e) at x in rw e (ap (λ l. length (recent w l)) x')
  ]

  counted :
      (c : Bool) (before after rest : ℕ)
      → Counted c before after
      → before ≤ max_burst config
      → (after ≤ max_burst config → rest + after ≤ max_burst config)
      → (if c then suc rest else rest) + before ≤ max_burst config
  unfolding Counted
  counted true before after rest (e, r) h ih = omega (arith, e, r, ih (omega (arith, e, r)))
  counted false before after rest e h ih = omega (arith, e, ih (omega (arith, e, h)))

  -- Where no peer stands twice in the tracker and no more times of a peer than the limit are later than
  -- `w`: over events in whose windows `w` lies and whose requests are later than `w`, the requests of
  -- the peer that are accepted and the times that were there are together no more than the limit.
  pub accepted-since :
      (w : Timestamp) (events : List BurstEvent) (b : Map (List Timestamp))
      → Within config w events
      → IsMap b
      → since w b ≤ max_burst config
      → accepted_times events b + since w b ≤ max_burst config
  unfolding accepted_times
  accepted-since w [] b i m h = omega (arith, h)
  accepted-since w (sweeps now ∷ events) b (n, i) m h =
      let e : since w (cleanup config now b) ≡ since w b =
        ap (λ l. length (recent w l)) (times_of-cleanup config now u b m)
        ∙ ap length (recent_within (threshold config now) w (times_of u b) n) in
      let ih =
        accepted-since w events (cleanup config now b) i (cleanup-IsMap config now b m)
          (omega (arith, e, h)) in
      omega (arith, e, ih)
  accepted-since w (asks now url t ∷ events) b (n, l, i) m h =
      let step = asks-since w now url t b n l in
      let ih =
        accepted-since w events (check_accept config now url t b).1 i
          (check_accept-IsMap config now url t b m) in
      counted (url == u && (check_accept config now url t b).0) _ _ _ step h ih
