-- ===== src/Time/Sizes.antt =====
-- The durations of crates/dht/src/time.rs as numbers of units.
use Prim.Native.Nat.{bit_or}
use native.Mathlib.Nat.{pow-suc, pow-le-pow_right}
use kitsune.Prelude.{
  ℕ, zero, suc, ◌+◌, ◌-◌, ◌*◌, ◌/◌, ◌%◌, ◌^◌, ◌≤◌, ◌<◌, ◌≡◌, refl, ap, arith, leb, false,
}
use kitsune.Prelude.Bits.{bit_or_step}
use kitsune.Prelude.Outcome.{ok}
use kitsune.Timestamp.{Duration}
use kitsune.Time.{slice_duration, residual_sum, residual_duration_for_factor}

-- `UNIT_TIME` in microseconds
abbrev pub unit : Duration
unit = 15 * 60 * 1000000

pow-le : (i j : ℕ) → i ≤ j → 2 ^ i ≤ 2 ^ j
pow-le i j h = pow-le-pow_right (omega arith) h

half-double : (m : ℕ) → m * 2 / 2 ≡ m
half-double m = omega arith

below_one : (a : ℕ) → a < 1 → a / 2 ≡ 0
below_one a h = omega arith

-- Setting the bit above a number adds it.
bit_or-above : (k a : ℕ) → a < 2 ^ k → bit_or a (2 ^ k) ≡ a + 2 ^ k
bit_or-above zero a h = omega (arith, bit_or_step a 1, ap (λ t. bit_or t 0) (below_one a h))
bit_or-above (suc k) a h =
    let e : 2 ^ suc k ≡ 2 ^ k * 2 = omega (arith, pow-suc 2 k) in
    rw e (
      omega (
        arith,
        e,
        bit_or_step a (2 ^ k * 2),
        ap (bit_or (a / 2)) (half-double (2 ^ k)),
        bit_or-above k (a / 2) (omega (arith, e)),
      ))

pub slice_duration-eq : (i : ℕ) → i < 54 → slice_duration i ≡ 2 ^ i * unit
unfolding slice_duration
slice_duration-eq i h =
    let m : i % 64 ≡ i = omega arith in rw m (omega (arith, pow-le i 53 (omega arith)))

residual_sum-eq : (i : ℕ) → i < 54 → residual_sum i + 1 ≡ 2 ^ suc i
unfolding residual_sum
residual_sum-eq zero h = refl
residual_sum-eq (suc i) h =
    let m : suc i % 64 ≡ suc i = omega arith in
    let ih : residual_sum i + 1 ≡ 2 ^ suc i = residual_sum-eq i (omega arith) in
    rw m (
      omega
        (arith, ih, bit_or-above (suc i) (residual_sum i) (omega (arith, ih)), pow-suc 2 (suc i)))

-- The residual time of a factor is the sum of the slice sizes from 0 up to the factor.
pub residual_duration-eq :
    (i : ℕ) → i < 54 → residual_duration_for_factor i ≡ ok ((2 ^ suc i - 1) * unit)
unfolding residual_duration_for_factor
residual_duration-eq i h =
    let b : leb 54 i ≡ false = ground arith in
    rw b (ap ok (omega (arith, residual_sum-eq i h, pow-le (suc i) 54 (omega arith), pow-suc 2 i)))
