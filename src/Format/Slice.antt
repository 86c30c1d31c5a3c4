-- ===== src/Format/Slice.antt =====
-- src/format/mod.rs: what `slice` and the fixed-width reads return on a buffer that fits in memory.
use ripindex.Common.{
  ℕ, ◌+◌, ◌^◌, ◌≤◌, ◌<◌, ◌≡◌, ◌++◌, length, take, drop, arith, All, All-take, All-drop, sym,
  length-append, length-take, length-drop, drop-append_add,
}
use ripindex.Format.{
  Bytes, IsByte, ℤ, ok, err, truncated, slice, read_u32_le, read_u64_le, read_i64_le, to_le_bytes,
  from_le_bytes, i64_bits, to_usize,
}
use ripindex.Format.Ints.{
  from_le_bytes-to_le_bytes, from_le_bytes-lt, to_le_bytes-from_le_bytes, IsI64, bits_i64-i64_bits,
  i64_bits-lt,
}

-- A buffer that fits in memory.
abbrev pub Fits : Bytes → Type 0
Fits buf = length buf < 2 ^ 64

pub slice-eq_ok :
    (buf : Bytes) (at len : ℕ)
    → Fits buf
    → at + len ≤ length buf
    → slice buf at len ≡ ok (take len (drop at buf))
unfolding slice
slice-eq_ok buf at len hf h = ground arith

-- A slice is handed out exactly when it lies inside the buffer; it has the length asked for.
pub slice_inv :
    (buf : Bytes) (at len : ℕ) (s : Bytes)
    → slice buf at len ≡ ok s
    → (at + len ≤ length buf) × (s ≡ take len (drop at buf)) × (length s ≡ len)
unfolding slice
slice_inv buf at len s e = ground (arith, length-take len (drop at buf), length-drop at buf)

pub slice-eq_err :
    (buf : Bytes) (at len : ℕ) → length buf < at + len → slice buf at len ≡ err (truncated at len)
unfolding slice
slice-eq_err buf at len h = ground arith

module _ (buf : Bytes) (at v : ℕ) (hf : Fits buf) where
  pub read_u32_le-eq :
      at + 4 ≤ length buf
      → take 4 (drop at buf) ≡ to_le_bytes 4 v
      → v < 2 ^ 32
      → read_u32_le buf at ≡ ok v
  unfolding read_u32_le
  read_u32_le-eq h e hv =
      rw (slice-eq_ok buf at 4 hf h, e, from_le_bytes-to_le_bytes 4 v (omega arith))

  pub read_u64_le-eq :
      at + 8 ≤ length buf
      → take 8 (drop at buf) ≡ to_le_bytes 8 v
      → v < 2 ^ 64
      → read_u64_le buf at ≡ ok v
  unfolding read_u64_le
  read_u64_le-eq h e hv =
      rw (slice-eq_ok buf at 8 hf h, e, from_le_bytes-to_le_bytes 8 v (omega arith))

pub read_i64_le-eq :
    (buf : Bytes) (at : ℕ) (z : ℤ)
    → Fits buf
    → at + 8 ≤ length buf
    → take 8 (drop at buf) ≡ to_le_bytes 8 (i64_bits z)
    → IsI64 z
    → read_i64_le buf at ≡ ok z
unfolding read_i64_le
read_i64_le-eq buf at z hf h e hz = rw (
  slice-eq_ok buf at 8 hf h,
  e,
  from_le_bytes-to_le_bytes 8 (i64_bits z) (i64_bits-lt hz),
  bits_i64-i64_bits hz,
)

pub to_usize-eq : (v : ℕ) → v < 2 ^ 64 → to_usize v ≡ ok v
unfolding to_usize
to_usize-eq v h = ground arith

-- A field that stands behind a prefix.
module _ (pre buf : Bytes) (at v : ℕ) (hf : Fits (pre ++ buf)) where
  pub read_u32_le-after :
      at + 4 ≤ length buf
      → take 4 (drop at buf) ≡ to_le_bytes 4 v
      → v < 2 ^ 32
      → read_u32_le (pre ++ buf) (length pre + at) ≡ ok v
  read_u32_le-after h e hv =
      read_u32_le-eq (pre ++ buf) (length pre + at) v hf (omega (arith, length-append pre buf))
        (rw (drop-append_add pre buf at) e) hv

  pub read_u64_le-after :
      at + 8 ≤ length buf
      → take 8 (drop at buf) ≡ to_le_bytes 8 v
      → v < 2 ^ 64
      → read_u64_le (pre ++ buf) (length pre + at) ≡ ok v
  read_u64_le-after h e hv =
      read_u64_le-eq (pre ++ buf) (length pre + at) v hf (omega (arith, length-append pre buf))
        (rw (drop-append_add pre buf at) e) hv

-- What a successful read says of the buffer.
pub read_u32_le_inv :
    (buf : Bytes) (at v : ℕ)
    → read_u32_le buf at ≡ ok v
    → (at + 4 ≤ length buf) × (v ≡ from_le_bytes (take 4 (drop at buf)))
unfolding read_u32_le slice
read_u32_le_inv buf at v e = ground arith

pub read_u64_le_inv :
    (buf : Bytes) (at v : ℕ)
    → read_u64_le buf at ≡ ok v
    → (at + 8 ≤ length buf) × (v ≡ from_le_bytes (take 8 (drop at buf)))
unfolding read_u64_le slice
read_u64_le_inv buf at v e = ground arith

-- On bytes a successful read determines the bytes read.
pub read_u32_le_exact :
    (buf : Bytes) (at v : ℕ)
    → All IsByte buf
    → read_u32_le buf at ≡ ok v
    → take 4 (drop at buf) ≡ to_le_bytes 4 v
read_u32_le_exact buf at v h e =
    let (room, value) = read_u32_le_inv buf at v e in
    let len : length (take 4 (drop at buf)) ≡ 4 =
      omega (arith, length-take 4 (drop at buf), length-drop at buf) in
    rw value (
      rw len at (
        sym (
          to_le_bytes-from_le_bytes (take 4 (drop at buf))
            (All-take IsByte 4 _ (All-drop IsByte at buf h)))))

pub read_u64_le_exact :
    (buf : Bytes) (at v : ℕ)
    → All IsByte buf
    → read_u64_le buf at ≡ ok v
    → take 8 (drop at buf) ≡ to_le_bytes 8 v
read_u64_le_exact buf at v h e =
    let (room, value) = read_u64_le_inv buf at v e in
    let len : length (take 8 (drop at buf)) ≡ 8 =
      omega (arith, length-take 8 (drop at buf), length-drop at buf) in
    rw value (
      rw len at (
        sym (
          to_le_bytes-from_le_bytes (take 8 (drop at buf))
            (All-take IsByte 8 _ (All-drop IsByte at buf h)))))

pub read_u32_le-lt :
    (buf : Bytes) (at v : ℕ) → All IsByte buf → read_u32_le buf at ≡ ok v → v < 2 ^ 32
read_u32_le-lt buf at v h e =
    let (room, value) = read_u32_le_inv buf at v e in
    let len : length (take 4 (drop at buf)) ≡ 4 =
      omega (arith, length-take 4 (drop at buf), length-drop at buf) in
    let below =
      from_le_bytes-lt (take 4 (drop at buf)) (All-take IsByte 4 _ (All-drop IsByte at buf h)) in
    rw value (rw len at below)
