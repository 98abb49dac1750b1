-- ===== src/Timestamp/Order.antt =====
-- Times from the epoch on, where the arithmetic of crates/api/src/timestamp.rs is exact.
use kitsune.Prelude.{ℕ, ◌+◌, ◌-◌, ◌≤◌, ◌<◌, none, some, ltb, ◌≡◌, arith}
use kitsune.Timestamp.{Duration, IsTime, lt_i64, add_duration, sub_duration, sub_timestamp}

pub lt_i64-eq : (t u : ℕ) → IsTime t → IsTime u → lt_i64 t u ≡ ltb t u
lt_i64-eq t u h k = ground arith

pub add_duration-eq : (t d : ℕ) → IsTime (t + d) → add_duration t d ≡ t + d
unfolding add_duration
add_duration-eq t d h = omega arith

pub sub_timestamp-eq : (t u : ℕ) → IsTime t → u ≤ t → sub_timestamp t u ≡ some (t - u)
unfolding sub_timestamp
sub_timestamp-eq t u h k = ground arith

-- From the epoch on, taking a timestamp from a later one gives the duration that leads back to it,
-- and taking that duration from the later one gives the earlier; the other way round is an error.
pub sub-add :
    (t u : ℕ)
    → IsTime t
    → u < t
    → (d : Duration) × (sub_timestamp t u ≡ some d)
      × (add_duration u d ≡ t)
      × (sub_duration t d ≡ some u)
      × (sub_timestamp u t ≡ none)
unfolding sub_timestamp add_duration sub_duration
sub-add t u h k = (t - u, ground arith, ground arith, ground arith, ground arith)
