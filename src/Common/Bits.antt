-- ===== src/Common/Bits.antt =====
-- Masks and shifts as arithmetic: the laws of the native bit operations, digit by digit.
use Prim.Native.Nat.{
  ℕ, zero, suc, ◌+◌, ◌*◌, ◌/◌, ◌%◌, ◌^◌, ◌≤◌, ◌<◌, min, max, bit_and, bit_or, digits,
  bit_and-bitwise, bit_or-bitwise,
}
use mathlib.Core.Path.{◌≡◌, refl, ap}
use native.Mathlib.Nat.{pow-suc}
use native.Mathlib.Omega.{arith}

-- A recursion on binary digits does not depend on its fuel, once that reaches the first operand.
module _ (end : ℕ → ℕ) (digit : ℕ → ℕ → ℕ) where
  digits_end : (fuel b : ℕ) → digits end digit fuel 0 b ≡ end b
  digits_end zero b = refl
  digits_end (suc fuel) b = refl

  enough_fuel :
      (a b fuel more : ℕ)
      → a ≤ fuel
      → a ≤ more
      → digits end digit fuel a b ≡ digits end digit more a b
  enough_fuel zero b fuel more p q = omega (arith, digits_end fuel b, digits_end more b)
  enough_fuel (suc a) b (suc fuel) (suc more) p q =
      let next = enough_fuel (suc a / 2) (b / 2) fuel more (omega arith) (omega arith) in
      omega (arith, next)
  enough_fuel (suc a) b zero more p q = absurd (omega arith)
  enough_fuel (suc a) b (suc fuel) zero p q = absurd (omega arith)

-- The lowest digit, and the digits above it.
pub and_digit : (a b : ℕ) → min (a % 2) (b % 2) + 2 * bit_and (a / 2) (b / 2) ≡ bit_and a b
and_digit zero b = omega (arith, bit_and-bitwise 0 b, bit_and-bitwise 0 (b / 2))
and_digit (suc a) b = omega (
  arith,
  bit_and-bitwise (suc a) b,
  bit_and-bitwise (suc a / 2) (b / 2),
  enough_fuel (λ _. 0) min (suc a / 2) (b / 2) a (suc a / 2) (omega arith) (omega arith),
)

pub or_digit : (a b : ℕ) → max (a % 2) (b % 2) + 2 * bit_or (a / 2) (b / 2) ≡ bit_or a b
or_digit zero b = omega (arith, bit_or-bitwise 0 b, bit_or-bitwise 0 (b / 2))
or_digit (suc a) b = omega (
  arith,
  bit_or-bitwise (suc a) b,
  bit_or-bitwise (suc a / 2) (b / 2),
  enough_fuel (λ b. b) max (suc a / 2) (b / 2) a (suc a / 2) (omega arith) (omega arith),
)

-- `rounds` halvings bring `a` down to 0.
masked_out : (a rounds : ℕ) → a ≤ rounds → bit_and a 0 ≡ 0
masked_out zero rounds h = omega (arith, bit_and-bitwise 0 0)
masked_out (suc a) (suc rounds) h =
    let halved = masked_out (suc a / 2) rounds (omega arith) in
    omega (arith, halved, and_digit (suc a) 0)
masked_out (suc a) zero h = absurd (omega arith)

pub bit_and-zero : (a : ℕ) → bit_and a 0 ≡ 0
bit_and-zero a = masked_out a a (omega arith)

bit_and-one : (a : ℕ) → bit_and a 1 ≡ a % 2
bit_and-one a = omega (arith, and_digit a 1, bit_and-zero (a / 2))

bit_and-3 : (a : ℕ) → bit_and a 3 ≡ a % 4
bit_and-3 a = omega (arith, and_digit a 3, bit_and-one (a / 2))

bit_and-7 : (a : ℕ) → bit_and a 7 ≡ a % 8
bit_and-7 a = omega (arith, and_digit a 7, bit_and-3 (a / 2))

bit_and-15 : (a : ℕ) → bit_and a 15 ≡ a % 16
bit_and-15 a = omega (arith, and_digit a 15, bit_and-7 (a / 2))

bit_and-31 : (a : ℕ) → bit_and a 31 ≡ a % 32
bit_and-31 a = omega (arith, and_digit a 31, bit_and-15 (a / 2))

bit_and-63 : (a : ℕ) → bit_and a 63 ≡ a % 64
bit_and-63 a = omega (arith, and_digit a 63, bit_and-31 (a / 2))

pub bit_and-127 : (a : ℕ) → bit_and a 127 ≡ a % 128
bit_and-127 a = omega (arith, and_digit a 127, bit_and-63 (a / 2))

bit_and-even : (a b : ℕ) → bit_and a (2 * b) ≡ bit_and (a / 2) b * 2
bit_and-even a b =
    let halved : 2 * b / 2 ≡ b = omega arith in
    omega (arith, and_digit a (2 * b), ap (λ t. bit_and (a / 2) t) halved)

bit_and-2 : (a : ℕ) → bit_and a 2 ≡ a / 2 % 2 * 2
bit_and-2 a = omega (arith, bit_and-even a 1, bit_and-one (a / 2))

bit_and-4 : (a : ℕ) → bit_and a 4 ≡ a / 4 % 2 * 4
bit_and-4 a = omega (arith, bit_and-even a 2, bit_and-2 (a / 2))

bit_and-8 : (a : ℕ) → bit_and a 8 ≡ a / 8 % 2 * 8
bit_and-8 a = omega (arith, bit_and-even a 4, bit_and-4 (a / 2))

bit_and-16 : (a : ℕ) → bit_and a 16 ≡ a / 16 % 2 * 16
bit_and-16 a = omega (arith, bit_and-even a 8, bit_and-8 (a / 2))

bit_and-32 : (a : ℕ) → bit_and a 32 ≡ a / 32 % 2 * 32
bit_and-32 a = omega (arith, bit_and-even a 16, bit_and-16 (a / 2))

bit_and-64 : (a : ℕ) → bit_and a 64 ≡ a / 64 % 2 * 64
bit_and-64 a = omega (arith, bit_and-even a 32, bit_and-32 (a / 2))

pub bit_and-128 : (a : ℕ) → bit_and a 128 ≡ a / 128 % 2 * 128
bit_and-128 a = omega (arith, bit_and-even a 64, bit_and-64 (a / 2))

pub bit_or-high : (k v g : ℕ) → v < 2 ^ k → bit_or v (g * 2 ^ k) ≡ v + g * 2 ^ k
bit_or-high zero zero g h = omega (arith, bit_or-bitwise 0 (g * 2 ^ 0))
bit_or-high zero (suc v) g h = absurd (omega arith)
bit_or-high (suc k) v g h =
    let shift : g * 2 ^ suc k ≡ 2 * (g * 2 ^ k) =
      omega (arith, ap (λ (t : ℕ). g * t) (pow-suc 2 k)) in
    let shifted : g * 2 ^ suc k / 2 ≡ g * 2 ^ k = omega arith in
    let small : v / 2 < 2 ^ k = omega (arith, pow-suc 2 k) in
    omega (
      arith,
      or_digit v (g * 2 ^ suc k),
      ap (λ t. bit_or (v / 2) t) shifted,
      bit_or-high k (v / 2) g small,
    )
