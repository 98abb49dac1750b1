-- ===== src/Gossip/Burst/Sweeps.antt =====
-- The sweeps of `AcceptBurstTracker` and its answers (crates/gossip/src/burst.rs).
use kitsune.Prelude.{
  Bool, not, List, [], ◌∷◌, ◌++◌, length, leb, ◌==◌, Bool-cases, if◌then◌else◌, ◌≡◌, inl, inr, refl,
  ap, sym, ◌∙◌, arith,
}
use kitsune.Prelude.Maps.{Map, put, IsMap, get-put, put-IsMap}
use kitsune.Timestamp.{Timestamp}
use kitsune.Gossip.{Url, K2GossipConfig}
use kitsune.Gossip.Burst.{times_of, max_burst, threshold, recent, check_accept, cleanup}
use kitsune.Gossip.Burst.Window.{NotBefore, recent_within, cleanup-IsMap, times_of-cleanup}

-- What happens to a tracker, each with the time it happens at: a peer asks to be accepted, with the
-- time stamp of its request, or the times of all peers are swept.
pub data BurstEvent : Type 0 where
  asks : Timestamp → Url → Timestamp → BurstEvent
  sweeps : Timestamp → BurstEvent

-- The requests without the sweeps.
abbrev pub without_sweeps : List BurstEvent → List BurstEvent
without_sweeps [] = []
without_sweeps (asks now url t ∷ events) = asks now url t ∷ without_sweeps events
without_sweeps (sweeps now ∷ events) = without_sweeps events

module _ (config : K2GossipConfig) where
  -- The answers to the requests.
  unfoldable pub answers : List BurstEvent → Map (List Timestamp) → List Bool
  answers [] b = []
  answers (asks now url t ∷ events) b =
      (check_accept config now url t b).0 ∷ answers events (check_accept config now url t b).1
  answers (sweeps now ∷ events) b = answers events (cleanup config now b)

  -- The windows begin in order, none before `s`.
  abbrev pub InOrder : Timestamp → List BurstEvent → Type 0
  InOrder s [] = Unit
  InOrder s (asks now url t ∷ events) =
      NotBefore s (threshold config now) × InOrder (threshold config now) events
  InOrder s (sweeps now ∷ events) =
      NotBefore s (threshold config now) × InOrder (threshold config now) events

  -- Two trackers that a window from `s` on cannot tell apart.
  Agree : Timestamp → Map (List Timestamp) → Map (List Timestamp) → Type 0
  Agree s b b' = (u : Url) → recent s (times_of u b) ≡ recent s (times_of u b')

  later-Agree :
      (s t : Timestamp) (b b' : Map (List Timestamp)) → NotBefore s t → Agree s b b' → Agree t b b'
  unfolding Agree
  later-Agree s t b b' n h u =
      sym (recent_within s t (times_of u b) n)
      ∙ ap (recent t) (h u)
      ∙ recent_within s t (times_of u b') n

  cleanup-Agree :
      (now : Timestamp) (b b' : Map (List Timestamp))
      → IsMap b
      → Agree (threshold config now) b b'
      → Agree (threshold config now) (cleanup config now b) b'
  unfolding Agree
  cleanup-Agree now b b' m h u =
      ap (recent (threshold config now)) (times_of-cleanup config now u b m)
      ∙ recent_within (threshold config now) (threshold config now) (times_of u b) (ground arith)
      ∙ h u

  times_of-put :
      (j k : Url) (ts : List Timestamp) (b : Map (List Timestamp))
      → times_of j (put k ts b) ≡ (if k == j then ts else times_of j b)
  times_of-put j k ts b = elim (Bool-cases (k == j)) [
    | inl e ↦ rw (times_of, get-put j k ts b, e) refl
    | inr e ↦ rw (times_of, get-put j k ts b, e) refl
  ]

  -- Whether the times of the window use up the limit, and what becomes of them.
  unfoldable pub full : List Timestamp → Bool
  full kept = leb (max_burst config) (length kept)

  unfoldable pub noted : Timestamp → List Timestamp → List Timestamp
  noted t kept = if full kept then kept else kept ++ t ∷ []

  pub check_accept-full :
      (now : Timestamp) (url : Url) (t : Timestamp) (b : Map (List Timestamp))
      → check_accept config now url t b ≡ (
        not (full (recent (threshold config now) (times_of url b))),
        put url (noted t (recent (threshold config now) (times_of url b))) b,
      )
  unfolding check_accept full noted
  check_accept-full now url t b =
      elim (Bool-cases
        (leb (max_burst config) (length (recent (threshold config now) (times_of url b))))) [
          | inl e ↦ rw e refl
          | inr e ↦ rw e refl
        ]

  pub check_accept-times :
      (now : Timestamp) (url : Url) (t : Timestamp) (b : Map (List Timestamp)) (u : Url)
      → times_of u (check_accept config now url t b).1 ≡ (
          if url == u
          then noted t (recent (threshold config now) (times_of url b))
          else times_of u b)
  check_accept-times now url t b u =
      ap (λ r. times_of u r.1) (check_accept-full now url t b) ∙ times_of-put u url _ b

  -- Trackers that agree answer alike, and agree from then on.
  check_accept-answer :
      (now : Timestamp) (url : Url) (t : Timestamp) (b b' : Map (List Timestamp))
      → Agree (threshold config now) b b'
      → (check_accept config now url t b).0 ≡ (check_accept config now url t b').0
  unfolding Agree
  check_accept-answer now url t b b' h =
      ap (λ r. r.0) (check_accept-full now url t b)
      ∙ ap (λ l. not (full l)) (h url)
      ∙ sym (ap (λ r. r.0) (check_accept-full now url t b'))

  check_accept-Agree :
      (now : Timestamp) (url : Url) (t : Timestamp) (b b' : Map (List Timestamp))
      → Agree (threshold config now) b b'
      → Agree
          (threshold config now)
          (check_accept config now url t b).1
          (check_accept config now url t b').1
  unfolding Agree
  check_accept-Agree now url t b b' h u =
      ap (recent (threshold config now)) (check_accept-times now url t b u)
      ∙ alike
      ∙ sym (ap (recent (threshold config now)) (check_accept-times now url t b' u))
    where
      alike :
          recent (threshold config now) (
            if url == u
            then noted t (recent (threshold config now) (times_of url b))
            else times_of u b)
          ≡ recent (threshold config now) (
              if url == u
              then noted t (recent (threshold config now) (times_of url b'))
              else times_of u b')
      alike = elim (Bool-cases (url == u)) [ inl e ↦ rw (e, h url) refl | inr e ↦ rw e (h u) ]

  pub check_accept-IsMap :
      (now : Timestamp) (url : Url) (t : Timestamp) (b : Map (List Timestamp))
      → IsMap b
      → IsMap (check_accept config now url t b).1
  check_accept-IsMap now url t b h = rw (check_accept-full now url t b) (put-IsMap url _ b h)

  answers-Agree :
      (s : Timestamp) (events : List BurstEvent) (b b' : Map (List Timestamp))
      → InOrder s events
      → IsMap b
      → Agree s b b'
      → answers events b ≡ answers (without_sweeps events) b'
  unfolding answers
  answers-Agree s [] b b' o m h = refl
  answers-Agree s (asks now url t ∷ events) b b' (n, o) m h =
      let k = later-Agree s (threshold config now) b b' n h in
      let q =
        answers-Agree (threshold config now) events _ _ o (check_accept-IsMap now url t b m)
          (check_accept-Agree now url t b b' k) in
      rw (check_accept-answer now url t b b' k, q) refl
  answers-Agree s (sweeps now ∷ events) b b' (n, o) m h =
      answers-Agree (threshold config now) events _ b' o (cleanup-IsMap config now b m)
        (cleanup-Agree now b b' m (later-Agree s (threshold config now) b b' n h))

  -- Where no peer stands twice in the tracker and the windows of the events begin in order, the requests
  -- are answered as they are without the sweeps.
  pub answers-without_sweeps :
      (s : Timestamp) (events : List BurstEvent) (b : Map (List Timestamp))
      → InOrder s events
      → IsMap b
      → answers events b ≡ answers (without_sweeps events) b
  unfolding Agree
  answers-without_sweeps s events b o m = answers-Agree s events b b o m (λ u. refl)
