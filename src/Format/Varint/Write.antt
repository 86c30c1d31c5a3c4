-- ===== src/Format/Varint/Write.antt =====
-- src/format/varint.rs, `put_u64`: it appends, and what it appends is one to ten bytes.
use ripindex.Common.{
  ℕ, zero, suc, ◌+◌, ◌/◌, ◌%◌, ◌≤◌, ◌≡◌, refl, sym, [], ◌∷◌, ◌++◌, length, All, arith, bit_and,
  bit_or, ◌==◌, if◌then◌else◌, append_assoc, append-nil,
}
use ripindex.Common.Bits.{bit_and-127, bit_or-high}
use ripindex.Format.{Bytes, IsByte}
use ripindex.Format.Varint.{put_loop, put_u64}

pub byte_low : (v : ℕ) → bit_and v 0x7f % 256 ≡ v % 128
byte_low v = omega (arith, bit_and-127 v)

pub byte_marked : (v : ℕ) → bit_or (bit_and v 0x7f % 256) 0x80 ≡ v % 128 + 128
byte_marked v = rw byte_low (bit_or-high 7 (v % 128) 1 (omega arith))

-- One round, in plain arithmetic.
pub put_loop_step :
    (rounds : ℕ) (out : Bytes) (v : ℕ)
    → put_loop (suc rounds) out v ≡ (
        if v / 128 == 0
        then out ++ (v ∷ [])
        else put_loop rounds (out ++ ((v % 128 + 128) ∷ [])) (v / 128))
unfolding put_loop
put_loop_step rounds out v = ground (arith, byte_low v, byte_marked v)

-- What stands in the buffer already is kept, and does not change what is written.
pub put_loop-append :
    (rounds : ℕ) (out : Bytes) (v : ℕ) → put_loop rounds out v ≡ out ++ put_loop rounds [] v
put_loop-append zero out v = unfold put_loop in sym (append-nil out)
put_loop-append (suc rounds) out v =
    let marked : Bytes = (v % 128 + 128) ∷ [] in
    ground (
      arith,
      put_loop_step rounds out v,
      put_loop_step rounds [] v,
      put_loop-append rounds (out ++ marked) (v / 128),
      put_loop-append rounds marked (v / 128),
      append_assoc out marked (put_loop rounds [] (v / 128)),
    )

pub put_u64-append : (out : Bytes) (v : ℕ) → put_u64 out v ≡ out ++ put_u64 [] v
unfolding put_u64
put_u64-append = put_loop-append 10

-- The first byte on its own.
pub put_loop-cons :
    (rounds v : ℕ)
    → put_loop (suc rounds) [] v
      ≡ (if v / 128 == 0 then v ∷ [] else (v % 128 + 128) ∷ put_loop rounds [] (v / 128))
put_loop-cons rounds v =
    ground
      (arith, put_loop_step rounds [] v, put_loop-append rounds ((v % 128 + 128) ∷ []) (v / 128))

put_loop-none : (v : ℕ) → put_loop 0 [] v ≡ []
unfolding put_loop
put_loop-none v = refl

pub put_loop-shape :
    (rounds v : ℕ)
    → All IsByte (put_loop (suc rounds) [] v)
      × (1 ≤ length (put_loop (suc rounds) [] v))
      × (length (put_loop (suc rounds) [] v) ≤ suc rounds)
put_loop-shape zero v = ground (arith, put_loop-cons 0 v, put_loop-none (v / 128))
put_loop-shape (suc rounds) v =
    ground (arith, put_loop-cons (suc rounds) v, put_loop-shape rounds (v / 128))

-- `put_u64` writes bytes only, one at least and ten at most, whatever the number.
pub put_u64_shape :
    (v : ℕ) → All IsByte (put_u64 [] v) × (1 ≤ length (put_u64 [] v)) × (length (put_u64 [] v) ≤ 10)
unfolding put_u64
put_u64_shape v = put_loop-shape 9 v
