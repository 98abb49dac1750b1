-- ===== src/Timestamp.antt =====
-- crates/api/src/timestamp.rs. A `Timestamp` is an `i64` of microseconds since the epoch, kept as its
-- 64-bit pattern; a `std::time::Duration` is a number of microseconds.
pub mod Order
use kitsune.Prelude.{
  ℕ, ◌+◌, ◌-◌, ◌*◌, ◌%◌, ◌^◌, ◌<◌, Bool, true, false, Option, none, some, ltb, not, if◌then◌else◌,
}

abbrev pub Timestamp : Type 0
Timestamp = ℕ

abbrev pub Duration : Type 0
Duration = ℕ

abbrev pub unix_timestamp : Timestamp
unix_timestamp = 0

-- `Duration::from_secs`
abbrev pub from_secs : ℕ → Duration
from_secs s = s * 1000000

-- `x as i64` of a wider number, as a bit pattern
abbrev pub as_i64 : ℕ → ℕ
as_i64 n = n % 2 ^ 64

-- `a < b` on `i64`: the order of the patterns with the sign bit turned over
abbrev pub lt_i64 : ℕ → ℕ → Bool
lt_i64 a b = ltb ((a + 2 ^ 63) % 2 ^ 64) ((b + 2 ^ 63) % 2 ^ 64)

-- `a >= b`
abbrev pub ge_i64 : ℕ → ℕ → Bool
ge_i64 a b = not (lt_i64 a b)

-- A timestamp that is not before the epoch.
abbrev pub IsTime : Timestamp → Type 0
IsTime t = t < 2 ^ 63

-- `Timestamp + Duration` and `+=`
unfoldable pub add_duration : Timestamp → Duration → Timestamp
add_duration t d = (t + as_i64 d) % 2 ^ 64

-- `Timestamp - Duration`, with its `Err(())`
unfoldable pub sub_duration : Timestamp → Duration → Option Timestamp
sub_duration t d = if lt_i64 t (as_i64 d) then none else some ((t + 2 ^ 64 - as_i64 d) % 2 ^ 64)

-- `Timestamp - Timestamp`, with its `Err(())`
unfoldable pub sub_timestamp : Timestamp → Timestamp → Option Duration
sub_timestamp t u = if lt_i64 t u then none else some ((t + 2 ^ 64 - u) % 2 ^ 64)
