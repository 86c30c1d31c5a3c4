-- ===== src/Format/Ints.antt =====
-- src/format/mod.rs: little-endian integers and the bytes that they stand for.
use ripindex.Common.{
  ℕ, zero, suc, ◌+◌, ◌*◌, ◌/◌, ◌%◌, ◌^◌, ◌<◌, ◌≡◌, refl, [], ◌∷◌, length, All, arith,
}
use ripindex.Format.{Bytes, IsByte, ℤ, pos, negsuc, to_le_bytes, from_le_bytes, i64_bits, bits_i64}

pub length-to_le_bytes : (w v : ℕ) → length (to_le_bytes w v) ≡ w
unfolding to_le_bytes
length-to_le_bytes zero v = refl
length-to_le_bytes (suc w) v = omega (arith, length-to_le_bytes w (v / 256))

pub to_le_bytes-IsByte : (w v : ℕ) → All IsByte (to_le_bytes w v)
unfolding to_le_bytes
to_le_bytes-IsByte zero v = tt
to_le_bytes-IsByte (suc w) v = (omega arith, to_le_bytes-IsByte w (v / 256))

-- A number of `w` bytes is read back from its bytes.
pub from_le_bytes-to_le_bytes : (w v : ℕ) → v < 256 ^ w → from_le_bytes (to_le_bytes w v) ≡ v
unfolding from_le_bytes to_le_bytes
from_le_bytes-to_le_bytes zero v h = omega arith
from_le_bytes-to_le_bytes (suc w) v h =
    omega (arith, from_le_bytes-to_le_bytes w (v / 256) (grind arith))

pub from_le_bytes-lt : (bs : Bytes) → All IsByte bs → from_le_bytes bs < 256 ^ length bs
unfolding from_le_bytes
from_le_bytes-lt [] h = omega arith
from_le_bytes-lt (b ∷ bs) (hb, hbs) = grind (arith, from_le_bytes-lt bs hbs)

pub to_le_bytes-from_le_bytes :
    (bs : Bytes) → All IsByte bs → to_le_bytes (length bs) (from_le_bytes bs) ≡ bs
unfolding from_le_bytes to_le_bytes
to_le_bytes-from_le_bytes [] h = refl
to_le_bytes-from_le_bytes (b ∷ bs) (hb, hbs) =
    let low : (b + 256 * from_le_bytes bs) % 256 ≡ b = omega arith in
    let high : (b + 256 * from_le_bytes bs) / 256 ≡ from_le_bytes bs = omega arith in
    rw (low, high, to_le_bytes-from_le_bytes bs hbs)

-- The range of `i64`.
pub data IsI64 : ℤ → Type 0 where
  nonnegative : {n : ℕ} → n < 2 ^ 63 → IsI64 (pos n)
  negative : {n : ℕ} → n < 2 ^ 63 → IsI64 (negsuc n)

pub bits_i64-i64_bits : {z : ℤ} → IsI64 z → bits_i64 (i64_bits z) ≡ z
unfolding bits_i64 i64_bits
bits_i64-i64_bits (nonnegative h) = ground arith
bits_i64-i64_bits (negative {n} h) = ground arith

pub i64_bits-lt : {z : ℤ} → IsI64 z → i64_bits z < 2 ^ 64
unfolding i64_bits
i64_bits-lt (nonnegative h) = omega arith
i64_bits-lt (negative h) = omega arith
