-- ===== src/Prelude/Bits.antt =====
-- Laws of the bitwise operations at every width, from the digit recursion that they mean.
use Prim.Native.Nat.{
  ℕ, zero, suc, ◌+◌, ◌*◌, ◌/◌, ◌%◌, ◌^◌, ◌≤◌, ◌<◌, min, max, digits, differ, bitwise, bit_and,
  bit_or, bit_xor, bit_and-bitwise, bit_or-bitwise, bit_xor-bitwise,
}
use mathlib.Core.Path.{◌≡◌, refl, ap, subst, sym, ◌∙◌}
use mathlib.Core.Logic.{◌≢◌}
use native.Mathlib.Nat.{pow-suc, le_refl, div-div-eq-div-mul, zero-div}
use native.Mathlib.Omega.{arith}

-- The recursion on digits `op`, which gives `rest y` where the first number is used up.
module _ (rest : ℕ → ℕ) (op : ℕ → ℕ → ℕ) where
  spare_fuel :
      (x y fuel more : ℕ) → x ≤ fuel → x ≤ more → digits rest op more x y ≡ digits rest op fuel x y
  spare_fuel zero y zero zero h k = refl
  spare_fuel zero y zero (suc more) h k = refl
  spare_fuel zero y (suc fuel) zero h k = refl
  spare_fuel zero y (suc fuel) (suc more) h k = refl
  spare_fuel (suc x) y (suc fuel) (suc more) h k =
      rw (spare_fuel (suc x / 2) (y / 2) fuel more (omega arith) (omega arith))
  spare_fuel (suc x) y zero more h k = absurd (omega arith)
  spare_fuel (suc x) y (suc fuel) zero h k = absurd (omega arith)

  -- Where `rest` is read off digit by digit too, both numbers give their lowest digit.
  lowest_digit :
      ((y : ℕ) → rest y ≡ rest (y / 2) * 2 + op 0 (y % 2))
      → (x y : ℕ) → bitwise rest op x y ≡ bitwise rest op (x / 2) (y / 2) * 2 + op (x % 2) (y % 2)
  lowest_digit law zero y = law y
  lowest_digit law (suc x) y =
      omega (arith, spare_fuel (suc x / 2) (y / 2) (suc x / 2) x (le_refl _) (omega arith))

-- One equation for the lowest digit of each operation.
pub bit_or_step : (x y : ℕ) → bit_or x y ≡ bit_or (x / 2) (y / 2) * 2 + max (x % 2) (y % 2)
bit_or_step x y = simp bit_or-bitwise (lowest_digit (λ u. u) max (λ u. omega arith) x y)

pub bit_and_step : (x y : ℕ) → bit_and x y ≡ bit_and (x / 2) (y / 2) * 2 + min (x % 2) (y % 2)
bit_and_step x y = simp bit_and-bitwise (lowest_digit (λ u. 0) min (λ u. omega arith) x y)

differ-mod : (x y : ℕ) → x < 2 → y < 2 → differ x y ≡ (x + y) % 2
differ-mod zero zero h k = refl
differ-mod zero (suc y) h k = omega arith
differ-mod (suc zero) zero h k = refl
differ-mod (suc zero) (suc zero) h k = refl
differ-mod (suc x) (suc y) h k = absurd (omega arith)
differ-mod (suc x) zero h k = absurd (omega arith)

pub bit_xor_step : (x y : ℕ) → bit_xor x y ≡ bit_xor (x / 2) (y / 2) * 2 + (x + y) % 2
bit_xor_step x y = simp bit_xor-bitwise (
    omega (
      arith,
      lowest_digit (λ u. u) differ
          (λ u. omega (arith, differ-mod 0 (u % 2) (omega arith) (omega arith))) x y,
      differ-mod (x % 2) (y % 2) (omega arith) (omega arith),
    ))

-- The laws go from `a / 2` to `a`, so each is proved below a bound.
xor-zero_below : (n a : ℕ) → a ≤ n → bit_xor a 0 ≡ a
xor-zero_below n zero h = refl
xor-zero_below zero (suc a) h = absurd (omega arith)
xor-zero_below (suc n) (suc a) h =
    omega (arith, bit_xor_step (suc a) 0, xor-zero_below n (suc a / 2) (omega arith))

pub bit_xor-zero : (a : ℕ) → bit_xor a 0 ≡ a
bit_xor-zero a = xor-zero_below a a (le_refl a)

xor-self_below : (n a : ℕ) → a ≤ n → bit_xor a a ≡ 0
xor-self_below n zero h = refl
xor-self_below zero (suc a) h = absurd (omega arith)
xor-self_below (suc n) (suc a) h =
    omega (arith, bit_xor_step (suc a) (suc a), xor-self_below n (suc a / 2) (omega arith))

pub bit_xor_self : (a : ℕ) → bit_xor a a ≡ 0
bit_xor_self a = xor-self_below a a (le_refl a)

xor_comm_below : (n a b : ℕ) → a ≤ n → b ≤ n → bit_xor a b ≡ bit_xor b a
xor_comm_below zero zero zero h k = refl
xor_comm_below zero zero (suc b) h k = absurd (omega arith)
xor_comm_below zero (suc a) b h k = absurd (omega arith)
xor_comm_below (suc n) a b h k = omega (
  arith,
  bit_xor_step a b,
  bit_xor_step b a,
  xor_comm_below n (a / 2) (b / 2) (omega arith) (omega arith),
)

pub bit_xor_comm : (a b : ℕ) → bit_xor a b ≡ bit_xor b a
bit_xor_comm a b = xor_comm_below (a + b) a b (omega arith) (omega arith)

pub bit_xor-div : (a b : ℕ) → bit_xor a b / 2 ≡ bit_xor (a / 2) (b / 2)
bit_xor-div a b = omega (arith, bit_xor_step a b)

pub bit_xor-mod : (a b : ℕ) → bit_xor a b % 2 ≡ (a + b) % 2
bit_xor-mod a b = omega (arith, bit_xor_step a b)

xor_assoc_below :
    (n a b c : ℕ) → a ≤ n → b ≤ n → c ≤ n → bit_xor (bit_xor a b) c ≡ bit_xor a (bit_xor b c)
xor_assoc_below zero zero zero zero h k l = refl
xor_assoc_below zero zero zero (suc c) h k l = absurd (omega arith)
xor_assoc_below zero zero (suc b) c h k l = absurd (omega arith)
xor_assoc_below zero (suc a) b c h k l = absurd (omega arith)
xor_assoc_below (suc n) a b c h k l =
    rw (bit_xor_step (bit_xor a b) c, bit_xor_step a (bit_xor b c), bit_xor-div, bit_xor-div)
      (omega (
        arith,
        bit_xor-mod a b,
        bit_xor-mod b c,
        xor_assoc_below n (a / 2) (b / 2) (c / 2) (omega arith) (omega arith) (omega arith),
      ))

pub bit_xor_assoc : (a b c : ℕ) → bit_xor (bit_xor a b) c ≡ bit_xor a (bit_xor b c)
bit_xor_assoc a b c = xor_assoc_below (a + b + c) a b c (omega arith) (omega arith) (omega arith)

-- Digit `k` of `w`.
abbrev pub bit_at : ℕ → ℕ → ℕ
bit_at w k = w / 2 ^ k % 2

div-pow-suc : (a k : ℕ) → a / 2 ^ suc k ≡ a / 2 / 2 ^ k
div-pow-suc a k =
    ap (λ t. a / t) (omega (arith, pow-suc 2 k)) ∙ sym (div-div-eq-div-mul a 2 (2 ^ k))

pub bit_at-suc : (a k : ℕ) → bit_at a (suc k) ≡ bit_at (a / 2) k
bit_at-suc a k = rw div-pow-suc

pub bit_at-zero : (k : ℕ) → bit_at 0 k ≡ 0
bit_at-zero k = rw zero-div

pub bit_at-or : (k a b : ℕ) → bit_at (bit_or a b) k ≡ max (bit_at a k) (bit_at b k)
bit_at-or zero a b = omega (arith, bit_or_step a b)
bit_at-or (suc k) a b =
    rw (bit_at-suc, bit_at-suc, bit_at-suc, ← bit_at-or k (a / 2) (b / 2))
      (ap (λ t. bit_at t k) (omega (arith, bit_or_step a b)))

pub bit_at-pow_self : (k : ℕ) → bit_at (2 ^ k) k ≡ 1
bit_at-pow_self zero = refl
bit_at-pow_self (suc k) =
    rw bit_at-suc (subst (λ t. bit_at t k ≡ 1) (omega (arith, pow-suc 2 k)) (bit_at-pow_self k))

pub bit_at-pow_ne : (k j : ℕ) → k ≢ j → bit_at (2 ^ k) j ≡ 0
bit_at-pow_ne zero zero h = absurd (h refl)
bit_at-pow_ne zero (suc j) h = rw bit_at-suc (bit_at-zero j)
bit_at-pow_ne (suc k) zero h = omega (arith, pow-suc 2 k)
bit_at-pow_ne (suc k) (suc j) h = rw bit_at-suc (
    subst (λ t. bit_at t j ≡ 0) (omega (arith, pow-suc 2 k))
      (bit_at-pow_ne k j (λ e. h (ap suc e))))

and-zero_below : (n a : ℕ) → a ≤ n → bit_and a 0 ≡ 0
and-zero_below n zero h = refl
and-zero_below zero (suc a) h = absurd (omega arith)
and-zero_below (suc n) (suc a) h =
    omega (arith, bit_and_step (suc a) 0, and-zero_below n (suc a / 2) (omega arith))

half-double : (m : ℕ) → m * 2 / 2 ≡ m
half-double m = omega arith

-- `value & (1 << k)` picks digit `k`.
pub bit_and-pow : (k a : ℕ) → bit_and a (2 ^ k) ≡ bit_at a k * 2 ^ k
bit_and-pow zero a = omega (arith, bit_and_step a 1, and-zero_below (a / 2) (a / 2) (le_refl _))
bit_and-pow (suc k) a =
    let e : 2 ^ suc k ≡ 2 ^ k * 2 = omega (arith, pow-suc 2 k) in
    rw (bit_at-suc, e)
      (omega (
        arith,
        bit_and_step a (2 ^ k * 2),
        ap (bit_and (a / 2)) (half-double (2 ^ k)),
        bit_and-pow k (a / 2),
        ap (λ (t : ℕ). t * 2) (bit_and-pow k (a / 2)),
      ))
