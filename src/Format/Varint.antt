-- ===== src/Format/Varint.antt =====
-- src/format/varint.rs: unsigned LEB128. A buffer that grows is passed and returned; the mutable
-- read position is passed, and returned behind the number.
pub mod Write
pub mod Read
pub mod RoundTrip
use ripindex.Common.{
  ℕ, zero, suc, ◌+◌, ◌*◌, ◌/◌, ◌%◌, ◌^◌, ◌&&◌, List, [], ◌∷◌, ◌++◌, drop, ltb, ◌==◌, if◌then◌else◌,
  bit_and, bit_or,
}
use ripindex.Format.{
  Bytes, Result, ok, err, ◌>>=◌, ◌>>◌, require, truncated, corrupt, varint_overflow,
  varint_too_long, varint_exceeds_u32,
}

-- The rounds of the loop in `put_u64`: each writes seven bits, so ten are enough for a `u64`.
unfoldable pub put_loop : ℕ → Bytes → ℕ → Bytes
put_loop zero out v = out
put_loop (suc rounds) out v =
    let byte = bit_and v 0x7f % 256 in
    let v' = v / 2 ^ 7 in
    let more = put_loop rounds (out ++ (bit_or byte 0x80 ∷ [])) v' in
    if v' == 0 then out ++ (byte ∷ []) else more

unfoldable pub put_u64 : Bytes → ℕ → Bytes
put_u64 out v = put_loop 10 out v

unfoldable pub put_u32 : Bytes → ℕ → Bytes
put_u32 out v = put_u64 out v

-- The list is what stands in the buffer from `pos` on, so its head is `buf.get(*pos)`.
unfoldable pub read_loop : Bytes → ℕ → ℕ → ℕ → Result (ℕ × ℕ)
read_loop [] pos v shift = err (truncated pos 1)
read_loop (byte ∷ rest) pos v shift =
    let v' = bit_or v (bit_and byte 0x7f * 2 ^ shift % 2 ^ 64) in
    let more = read_loop rest (pos + 1) v' (shift + 7) in
    if (shift == 63) && ltb 1 byte
    then err (corrupt varint_overflow)
    else if bit_and byte 0x80 == 0
    then ok (v', pos + 1)
    else if ltb 63 (shift + 7)
    then err (corrupt varint_too_long)
    else more

unfoldable pub read_u64 : Bytes → ℕ → Result (ℕ × ℕ)
read_u64 buf pos = read_loop (drop pos buf) pos 0 0

unfoldable pub read_u32 : Bytes → ℕ → Result (ℕ × ℕ)
read_u32 buf pos = do
  (v, pos') ← read_u64 buf pos
  require (ltb v (2 ^ 32)) (corrupt varint_exceeds_u32)
  ok (v, pos')
