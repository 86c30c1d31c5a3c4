-- ===== src/Format/Del/Byte.antt =====
-- src/format/del.rs: one byte of the bitmap. Each fact is a table over the bytes and the bits.
use ripindex.Common.{
  ℕ, zero, suc, ◌+◌, ◌/◌, ◌%◌, ◌^◌, ◌≤◌, ◌<◌, ◌≡◌, refl, Bool, true, false, not, ◌&&◌, ◌||◌, leb,
  ltb, ◌==◌, if◌then◌else◌, arith, bit_and, ==_iff, leb→le,
}
use ripindex.Common.Bits.{and_digit, bit_and-zero}
use Prim.Native.Nat.{bit_and-bitwise}
use ripindex.Format.Del.{mask, has_bit, with_bit, count_ones}

-- The test holds of every number below the bound.
holds_to : (ℕ → Bool) → ℕ → Bool
holds_to test (suc bound) = holds_to test bound && test bound
holds_to test zero = true

holds_to-at :
    (test : ℕ → Bool) (bound i : ℕ) → i < bound → holds_to test bound ≡ true → test i ≡ true
unfolding holds_to
holds_to-at test (suc bound) i small all = ground (arith, holds_to-at test bound i)
holds_to-at test zero i small all = absurd (omega arith)

pub bit_and-7 : (a : ℕ) → bit_and a 7 ≡ a % 8
bit_and-7 a = omega (
  arith,
  and_digit a 7,
  and_digit (a / 2) 3,
  and_digit (a / 2 / 2) 1,
  bit_and-zero (a / 2 / 2 / 2),
)

same : Bool → Bool → Bool
same true b = b
same false b = not b

same→eq : (a b : Bool) → same a b ≡ true → a ≡ b
unfolding same
same→eq a b h = ground arith

-- Only the place within the byte counts.
pub mask-mod : (i : ℕ) → mask i ≡ mask (i % 8)
unfolding mask
mask-mod i = let e : i % 8 % 8 ≡ i % 8 = omega arith in rw (bit_and-7 i, bit_and-7 (i % 8), e)

table : (ℕ → ℕ → Bool) → Bool
table p = holds_to (λ byte. holds_to (p byte) 8) 256

table_sound :
    (p : ℕ → ℕ → Bool) → table p ≡ true → (byte k : ℕ) → byte < 256 → k < 8 → p byte k ≡ true
unfolding table
table_sound p t byte k hb hk =
    holds_to-at (p byte) 8 k hk (holds_to-at (λ b. holds_to (p b) 8) 256 byte hb t)

in_range_table : table (λ byte k. ltb (with_bit byte k) 256) ≡ true
unfolding table holds_to with_bit
in_range_table = refl

count_table :
    table (λ byte k.
      count_ones (with_bit byte k) == count_ones byte + (if has_bit byte k then 0 else 1))
    ≡ true
unfolding table holds_to with_bit has_bit count_ones
count_table = refl

bits_after : ℕ → ℕ → ℕ → Bool
bits_after byte k j = same (has_bit (with_bit byte k) j) (if k == j then true else has_bit byte j)

bits_table : table (λ byte k. holds_to (bits_after byte k) 8) ≡ true
unfolding table holds_to with_bit has_bit same bits_after
bits_table = refl

stays_below : ℕ → ℕ → ℕ → Bool
stays_below byte n k = not (ltb byte (2 ^ n)) || ltb (with_bit byte k) (2 ^ n)

below_table : table (λ byte n. holds_to (stays_below byte n) n) ≡ true
unfolding table holds_to with_bit stays_below
below_table = refl

ones_table : table (λ byte n. not (ltb byte (2 ^ n)) || leb (count_ones byte) n) ≡ true
unfolding table holds_to count_ones
ones_table = refl

all_ones_table : table (λ byte _. leb (count_ones byte) 8) ≡ true
unfolding table holds_to count_ones
all_ones_table = refl

pub with_bit-mod : (byte i : ℕ) → with_bit byte i ≡ with_bit byte (i % 8)
unfolding with_bit
with_bit-mod byte i = rw (mask-mod i)

pub has_bit-mod : (byte i : ℕ) → has_bit byte i ≡ has_bit byte (i % 8)
unfolding has_bit
has_bit-mod byte i = rw (mask-mod i)

module _ (byte i : ℕ) (h : byte < 256) where
  pub with_bit-lt : with_bit byte i < 256
  with_bit-lt =
      ground (arith, with_bit-mod byte i, table_sound _ in_range_table byte (i % 8) h (omega arith))

  -- Setting a bit adds one to the count, unless it was set.
  pub count_ones-with_bit :
      count_ones (with_bit byte i) ≡ count_ones byte + (if has_bit byte i then 0 else 1)
  count_ones-with_bit =
      rw (with_bit-mod byte i, has_bit-mod byte i)
        ((==_iff _ _).0 (table_sound _ count_table byte (i % 8) h (omega arith)))

  -- Setting a bit changes that bit and no other.
  pub has_bit-with_bit :
      (j : ℕ) → has_bit (with_bit byte i) j ≡ (if i % 8 == j % 8 then true else has_bit byte j)
  unfolding bits_after
  has_bit-with_bit j =
      rw (with_bit-mod byte i, has_bit-mod (with_bit byte (i % 8)) j, has_bit-mod byte j)
        (same→eq _ _ (
          holds_to-at (bits_after byte (i % 8)) 8 (j % 8) (omega arith) (
            table_sound (λ b k. holds_to (bits_after b k) 8) bits_table byte (i % 8) h
              (omega arith))))

pub count_ones-le : (byte : ℕ) → byte < 256 → count_ones byte ≤ 8
count_ones-le byte h = leb→le _ _ (table_sound _ all_ones_table byte 0 h (omega arith))

-- In a byte whose high bits are clear, setting a low bit leaves them clear.
pub with_bit-below :
    (byte n i : ℕ) → n < 8 → byte < 2 ^ n → byte < 256 → i < n → with_bit byte i < 2 ^ n
unfolding stays_below
with_bit-below byte n i hn hb h hi =
    let t =
      holds_to-at (stays_below byte n) n i hi
        (table_sound (λ b m. holds_to (stays_below b m) m) below_table byte n h hn) in
    ground arith

pub count_ones-below : (byte n : ℕ) → n < 8 → byte < 2 ^ n → byte < 256 → count_ones byte ≤ n
count_ones-below byte n hn hb h =
    let t =
      table_sound (λ b m. not (ltb b (2 ^ m)) || leb (count_ones b) m) ones_table byte n h hn in
    ground arith

-- No bit of a zero byte is set.
pub has_bit-zero : (i : ℕ) → has_bit 0 i ≡ false
unfolding has_bit
has_bit-zero i = ground (arith, bit_and-bitwise 0 (mask i))
