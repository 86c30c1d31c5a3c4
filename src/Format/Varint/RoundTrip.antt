-- ===== src/Format/Varint/RoundTrip.antt =====
-- src/format/varint.rs: what `put_u64` wrote is read back, wherever it stands in a buffer.
use ripindex.Common.{
  ℕ, zero, suc, ◌+◌, ◌*◌, ◌/◌, ◌%◌, ◌^◌, ◌≤◌, ◌<◌, ◌≡◌, ap, [], ◌∷◌, ◌++◌, length, take, ltb, arith,
  if◌then◌else◌, length-append, drop-append, append_assoc,
}
use ripindex.Common.Bits.{bit_and-128}
use ripindex.Format.{Bytes, ok, err, truncated, corrupt, varint_exceeds_u32}
use ripindex.Format.Varint.{put_loop, put_u64, put_u32, read_loop, read_u64, read_u32}
use ripindex.Format.Varint.Write.{put_loop-cons, put_u64-append}
use ripindex.Format.Varint.Read.{pow-seven, group-add}
use native.Mathlib.Nat.{div-add-mod}
use mathlib.Core.Path.{subst}

last_place : (s w acc : ℕ) → acc + w * 2 ^ s < 2 ^ 64 → s ≡ 63 → w ≤ 1
last_place s w acc fits e =
    let at63 : acc + w * 2 ^ 63 < 2 ^ 64 = subst (λ t. acc + w * 2 ^ t < 2 ^ 64) e fits in
    omega arith

last_byte :
    (w acc s pos : ℕ) (rest : Bytes)
    → w < 128
    → acc < 2 ^ s
    → acc + w * 2 ^ s < 2 ^ 64
    → read_loop (w ∷ rest) pos acc s ≡ ok (acc + w * 2 ^ s, pos + 1)
unfolding read_loop
last_byte w acc s pos rest hw ha fits =
    let low : w % 128 ≡ w = omega arith in
    let sum = group-add s acc w ha (rw low (omega arith)) in
    ground (arith, bit_and-128 w, sum, low, last_place s w acc fits)

inner_byte :
    (g acc s pos : ℕ) (rest : Bytes)
    → g < 128
    → s + 7 ≤ 63
    → acc < 2 ^ s
    → acc + g * 2 ^ s < 2 ^ 64
    → read_loop ((g + 128) ∷ rest) pos acc s ≡ read_loop rest (pos + 1) (acc + g * 2 ^ s) (s + 7)
unfolding read_loop
inner_byte g acc s pos rest hg hs ha fits =
    let low : (g + 128) % 128 ≡ g = omega arith in
    let sum = group-add s acc (g + 128) ha (rw low (omega arith)) in
    ground (arith, bit_and-128 (g + 128), sum, low)

-- The lowest group of `w` and the rest of it, both in place `s`.
split_group : (w s : ℕ) → w / 128 * 2 ^ (s + 7) + w % 128 * 2 ^ s ≡ w * 2 ^ s
split_group w s =
    let shifted = ap (λ (place : ℕ). w / 128 * place) (pow-seven s) in
    let whole = ap (λ (number : ℕ). number * 2 ^ s) (div-add-mod w 128) in
    omega (arith, shifted, whole)

next_place : (w acc s : ℕ) → acc < 2 ^ s → acc + w % 128 * 2 ^ s < 2 ^ (s + 7)
next_place w acc s h = let g : w % 128 ≤ 127 = omega arith in rw (pow-seven s) (grind arith)

read_loop-put_loop :
    (rounds w acc j s pos : ℕ) (rest : Bytes)
    → s ≡ 7 * j
    → j + suc rounds ≤ 10
    → w < 128 ^ suc rounds
    → acc < 2 ^ s
    → acc + w * 2 ^ s < 2 ^ 64
    → read_loop (put_loop (suc rounds) [] w ++ rest) pos acc s
      ≡ ok (acc + w * 2 ^ s, pos + length (put_loop (suc rounds) [] w))
read_loop-put_loop zero w acc j s pos rest hs hj hw ha fits =
    ground (arith, put_loop-cons 0 w, last_byte w acc s pos rest)
read_loop-put_loop (suc rounds) w acc j s pos rest hs hj hw ha fits = ground (
  arith,
  put_loop-cons (suc rounds) w,
  last_byte w acc s pos rest,
  split_group w s,
  next_place w acc s ha,
  inner_byte (w % 128) acc s pos (put_loop (suc rounds) [] (w / 128) ++ rest),
  read_loop-put_loop rounds (w / 128) (acc + w % 128 * 2 ^ s) (j + 1) (s + 7) (pos + 1) rest,
)

-- The same, for a number that stands anywhere in a buffer.
pub read_u64-at :
    (pre rest : Bytes) (v : ℕ)
    → v < 2 ^ 64
    → read_u64 (pre ++ (put_u64 [] v ++ rest)) (length pre)
      ≡ ok (v, length pre + length (put_u64 [] v))
unfolding read_u64 put_u64
read_u64-at pre rest v h =
    let whole = read_loop-put_loop 9 v 0 0 0 (length pre) rest in
    rw drop-append (ground (arith, whole))

-- `read_u64`, at the place where `put_u64` began to write, returns the number and the place where
-- `put_u64` ended, whatever the buffer holds before and after.
pub read_u64-put_u64 :
    (out rest : Bytes) (v : ℕ)
    → v < 2 ^ 64
    → read_u64 (put_u64 out v ++ rest) (length out) ≡ ok (v, length (put_u64 out v))
read_u64-put_u64 out rest v h =
    rw (put_u64-append out v, append_assoc, length-append) (read_u64-at out rest v h)

pub read_u32-at :
    (pre rest : Bytes) (v : ℕ)
    → v < 2 ^ 32
    → read_u32 (pre ++ (put_u32 [] v ++ rest)) (length pre)
      ≡ ok (v, length pre + length (put_u32 [] v))
unfolding read_u32 put_u32
read_u32-at pre rest v h = ground (arith, read_u64-at pre rest v)

-- `read_u32` reads back every `u32`, and refuses every larger number that `put_u64` writes.
pub read_u32-put_u64 :
    (out rest : Bytes) (v : ℕ)
    → v < 2 ^ 64
    → read_u32 (put_u64 out v ++ rest) (length out) ≡ (
        if ltb v (2 ^ 32) then ok (v, length (put_u64 out v)) else err (corrupt varint_exceeds_u32))
unfolding read_u32
read_u32-put_u64 out rest v h = ground (arith, read_u64-put_u64 out rest v)

read_loop_cut :
    (rounds w acc j s pos k : ℕ)
    → s ≡ 7 * j
    → j + suc rounds ≤ 10
    → w < 128 ^ suc rounds
    → acc < 2 ^ s
    → acc + w * 2 ^ s < 2 ^ 64
    → k < length (put_loop (suc rounds) [] w)
    → read_loop (take k (put_loop (suc rounds) [] w)) pos acc s ≡ err (truncated (pos + k) 1)
unfolding read_loop
read_loop_cut rounds w acc j s pos zero hs hj hw ha fits hk = ground (arith)
read_loop_cut zero w acc j s pos (suc k) hs hj hw ha fits hk = ground (arith, put_loop-cons 0 w)
read_loop_cut (suc rounds) w acc j s pos (suc k) hs hj hw ha fits hk = ground (
  arith,
  put_loop-cons (suc rounds) w,
  split_group w s,
  next_place w acc s ha,
  inner_byte (w % 128) acc s pos (take k (put_loop (suc rounds) [] (w / 128))),
  read_loop_cut rounds (w / 128) (acc + w % 128 * 2 ^ s) (j + 1) (s + 7) (pos + 1) k,
)

-- On a number that is cut short after `k` bytes `read_u64` reports the end of the buffer.
pub read_u64_truncated :
    (pre : Bytes) (v k : ℕ)
    → v < 2 ^ 64
    → k < length (put_u64 [] v)
    → read_u64 (pre ++ take k (put_u64 [] v)) (length pre) ≡ err (truncated (length pre + k) 1)
unfolding read_u64 put_u64
read_u64_truncated pre v k h hk =
    rw drop-append (ground (arith, read_loop_cut 9 v 0 0 0 (length pre) k))

-- A number below 128 in two bytes, which `put_u64` never writes, is accepted.
pub read_u64_padded :
    (v : ℕ) (rest : Bytes)
    → v < 128
    → (read_u64 ((v + 128) ∷ 0 ∷ rest) 0 ≡ ok (v, 2)) × (put_u64 [] v ≡ v ∷ [])
unfolding read_u64 put_u64
read_u64_padded v rest h =
    ground (arith, inner_byte v 0 0 0 (0 ∷ rest), last_byte 0 v 7 1 rest, put_loop-cons 9 v)
