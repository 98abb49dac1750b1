-- ===== src/Time/Layout.antt =====
-- `layout_partials` of crates/dht/src/time.rs: how the recent time is cut into slices.
use kitsune.Prelude.{ℕ, zero, suc, ◌+◌, ◌-◌, ◌*◌, ◌^◌, List, [], ◌∷◌, ltb, if◌then◌else◌, ◌≡◌}
use kitsune.Prelude.Outcome.{Outcome}
use kitsune.Timestamp.{Timestamp}
use kitsune.Time.Sizes.{unit}

-- Slices that follow one another with no gap, from the first time to the second.
abbrev pub Chain : Timestamp → List (Timestamp × ℕ) → Timestamp → Type 0
Chain s [] e = s ≡ e
Chain s ((t, i) ∷ ps) e = (t ≡ s) × Chain (s + 2 ^ i * unit) ps e

-- `n` slices of size `i` from `s` on.
abbrev slices : ℕ → ℕ → Timestamp → List (Timestamp × ℕ)
slices zero i s = []
slices (suc n) i s = (s, i) ∷ slices n i (s + 2 ^ i * unit)

-- How many slices of `p` units the code takes from the time `r`.
abbrev count_of : ℕ → ℕ → ℕ
count_of p r =
    if ltb ((2 * p - 1) * unit + p * unit) r then 2 else if ltb (p * unit) r then 1 else 0
