-- ===== src/Format/Del.antt =====
-- src/format/del.rs: the deletion bitmap of a segment, and its file. An index outside a vector
-- panics in the program: `none` in the model.
pub mod Byte
pub mod Set
pub mod RoundTrip
use ripindex.Common.{
  ℕ, zero, suc, ◌+◌, ◌-◌, ◌*◌, ◌/◌, ◌%◌, ◌^◌, Bool, true, false, not, ◌&&◌, Option, none, some,
  List, [], ◌∷◌, ◌++◌, length, get_elem?, set, drop, replicate, ltb, leb, ◌==◌, if◌then◌else◌,
  bit_and, bit_or,
}
use ripindex.Format.{
  Bytes, Result, ok, err, ◌>>=◌, ◌>>◌, require, truncated, corrupt, bitmap_length, bitmap_popcount,
  bits_past_num_docs, to_le_bytes, read_u32_le,
}
use ripindex.Format.Checksum.{Crc32}
use ripindex.Format.Envelope
use ripindex.Format.Envelope.{del}
use mathlib.Core.Option
use mathlib.Core.List.{get_last?}

abbrev pub body_header_len : ℕ
body_header_len = 8

pub record Bitmap : Type 0 where
  pub num_docs : ℕ
  pub bits : Bytes

unfoldable pub div_ceil : ℕ → ℕ → ℕ
div_ceil a b = if a % b == 0 then a / b else a / b + 1

-- `1u8 << (i & 7)`, and the test and the write of that bit.
unfoldable pub mask : ℕ → ℕ
mask i = 2 ^ bit_and i 7 % 256

unfoldable pub has_bit : ℕ → ℕ → Bool
unfolding mask
has_bit byte i = not (bit_and byte (mask i) == 0)

unfoldable pub with_bit : ℕ → ℕ → ℕ
unfolding mask
with_bit byte i = bit_or byte (mask i)

unfoldable pub new : ℕ → Bitmap
unfolding div_ceil
new num_docs = record { num_docs = num_docs; bits = replicate (div_ceil num_docs 8) 0 }

-- `Bitmap::set`: whether the bit was newly set, and the bitmap after.
unfoldable pub set_bit : Bitmap → ℕ → Option (Bitmap × Bool)
set_bit b i =
    if leb b.num_docs i
    then some (b, false)
    else Option.map
        (λ byte.
          (record b { bits = set b.bits (i / 2 ^ 3) (with_bit byte i) }, not (has_bit byte i)))
        (get_elem? b.bits (i / 2 ^ 3))

-- `Bitmap::get`, and `DelView::is_deleted`, which has the same body.
unfoldable pub get : Bitmap → ℕ → Option Bool
get b i =
    if ltb i b.num_docs
    then Option.map (λ byte. has_bit byte i) (get_elem? b.bits (i / 2 ^ 3))
    else some false

-- `u8::count_ones`
ones_below : ℕ → ℕ → ℕ
ones_below zero n = 0
ones_below (suc k) n = n % 2 + ones_below k (n / 2)

unfoldable pub count_ones : ℕ → ℕ
unfolding ones_below
count_ones byte = ones_below 8 byte

unfoldable pub ones : Bytes → ℕ
unfolding count_ones
ones [] = 0
ones (byte ∷ bytes) = count_ones byte + ones bytes

-- The sum of the bytes' `count_ones` in a `u32`, which wraps.
unfoldable pub popcount : Bytes → ℕ
unfolding ones
popcount bytes = ones bytes % 2 ^ 32

unfoldable pub count : Bitmap → ℕ
count b = popcount b.bits

unfoldable pub encode : Crc32 → Bitmap → Bytes
encode c b = Envelope.seal c del (to_le_bytes 4 b.num_docs ++ (to_le_bytes 4 (count b) ++ b.bits))

pub record DelView : Type 0 where
  pub num_docs : ℕ
  pub num_deleted : ℕ
  pub bits : Bytes
  pub crc : ℕ

-- `bits.last().is_some_and(|&b| b >> (num_docs % 8) != 0)`
unfoldable pub last_overruns : Bytes → ℕ → Bool
last_overruns [] n = false
last_overruns (b ∷ []) n = not (b / 2 ^ (n % 8) == 0)
last_overruns (b ∷ c ∷ bs) n = last_overruns (c ∷ bs) n

unfoldable pub parse_body : Bytes → ℕ → Result DelView
unfolding div_ceil
parse_body body crc = do
  require (leb body_header_len (length body)) (truncated (length body) body_header_len)
  num_docs ← read_u32_le body 0
  num_deleted ← read_u32_le body 4
  let bits = drop body_header_len body
  require (length bits == div_ceil num_docs 8) (corrupt bitmap_length)
  require (popcount bits == num_deleted) (corrupt bitmap_popcount)
  require (not (not (num_docs % 8 == 0) && last_overruns bits num_docs))
      (corrupt bits_past_num_docs)
  ok (record { num_docs = num_docs; num_deleted = num_deleted; bits = bits; crc = crc })

unfoldable pub parse_verified : Crc32 → Bytes → Result DelView
unfolding parse_body
parse_verified c bytes = do
  env ← Envelope.parse_verified c del bytes
  parse_body (Envelope.body_of bytes env) env.stored

unfoldable pub to_bitmap : DelView → Bitmap
to_bitmap v = record { num_docs = v.num_docs; bits = v.bits }
