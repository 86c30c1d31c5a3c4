-- ===== src/Format/Varint/Read.antt =====
-- src/format/varint.rs, `read_u64` and `read_u32` on any input: what a success says, and that the
-- answer depends on nothing behind the number.
use ripindex.Common.{
  ℕ, ◌+◌, ◌*◌, ◌%◌, ◌^◌, ◌≤◌, ◌<◌, ◌≡◌, [], ◌∷◌, length, drop, arith, bit_and, bit_or, length-drop,
}
use ripindex.Common.Bits.{bit_and-127, bit_or-high}
use ripindex.Format.{Bytes, ok}
use ripindex.Format.Varint.{read_loop, read_u64}
use native.Mathlib.Numerals.{towards_suc}
use native.Mathlib.Nat.{pow-le-pow_right}
use mathlib.Core.Path.{subst}
use mathlib.Core.Logic.{inl, inr, ◌⊎◌}

pub pow-seven : (s : ℕ) → 2 ^ (s + 7) ≡ 128 * 2 ^ s
pow-seven s = simp towards_suc (omega arith)

-- What a round adds: the low seven bits of the byte, in the place that the shift gives them.
pub group-add :
    (shift v byte : ℕ)
    → v < 2 ^ shift
    → byte % 128 * 2 ^ shift < 2 ^ 64
    → bit_or v (bit_and byte 0x7f * 2 ^ shift % 2 ^ 64) ≡ v + byte % 128 * 2 ^ shift
group-add shift v byte hv fits =
    let low : byte % 128 * 2 ^ shift % 2 ^ 64 ≡ byte % 128 * 2 ^ shift = omega arith in
    rw (bit_and-127, low) (bit_or-high shift v (byte % 128) hv)

-- In the places that come before the last, a group fits whatever its value.
pow-early : (j : ℕ) → j ≤ 8 → 128 * 2 ^ (7 * j) ≤ 2 ^ 63
pow-early j h =
    let exponent : 7 * j ≤ 56 = omega arith in
    omega (arith, pow-le-pow_right {n = 2} (omega arith) exponent)

-- The number read so far, after one more round.
abbrev joined : ℕ → ℕ → ℕ → ℕ
joined shift v byte = bit_or v (bit_and byte 0x7f * 2 ^ shift % 2 ^ 64)

group-lt : (a p : ℕ) → a < 128 → a * p + p ≤ 128 * p
group-lt a p h = grind arith

joined-early :
    (j v byte : ℕ)
    → j ≤ 8
    → v < 2 ^ (7 * j)
    → (joined (7 * j) v byte < 2 ^ (7 * j + 7)) × (joined (7 * j) v byte < 2 ^ 64)
joined-early j v byte h hv =
    let room = group-lt (byte % 128) (2 ^ (7 * j)) (omega arith) in
    let sum = group-add (7 * j) v byte hv (omega (arith, pow-early j h)) in
    rw sum (omega (arith, pow-seven (7 * j), pow-early j h))

joined-last :
    (v byte : ℕ) → v < 2 ^ 63 → byte ≤ 1 → (joined 63 v byte < 2 ^ 70) × (joined 63 v byte < 2 ^ 64)
joined-last v byte hv h = rw (group-add 63 v byte hv (omega arith)) (omega arith)

place-cases : (j : ℕ) → j ≤ 9 → (j ≤ 8) ⊎ (9 ≡ j)
place-cases j h = omega arith

joined_bounds :
    (j v byte : ℕ)
    → j ≤ 9
    → v < 2 ^ (7 * j)
    → (7 * j ≡ 63 → byte ≤ 1)
    → (joined (7 * j) v byte < 2 ^ (7 * j + 7)) × (joined (7 * j) v byte < 2 ^ 64)
joined_bounds j v byte hj hv last = elim (place-cases j hj) [
  | inl early ↦ joined-early j v byte early hv
  | inr e ↦
      subst
        (λ k.
          v < 2 ^ (7 * k)
          → (joined (7 * k) v byte < 2 ^ (7 * k + 7)) × (joined (7 * k) v byte < 2 ^ 64))
        e (λ h. joined-last v byte h (last (omega arith))) hv
]

read_loop_inv :
    (buf : Bytes) (pos v shift j x p : ℕ)
    → shift ≡ 7 * j
    → j ≤ 9
    → v < 2 ^ shift
    → read_loop buf pos v shift ≡ ok (x, p)
    → (x < 2 ^ 64) × (pos < p) × (p ≤ pos + length buf) × (p + j ≤ pos + 10)
unfolding read_loop
read_loop_inv [] pos v shift j x p hs hj hv e = cc
read_loop_inv (byte ∷ rest) pos v shift j x p hs hj hv e = ground (
  arith,
  joined_bounds j v byte,
  read_loop_inv rest (pos + 1) (joined shift v byte) (shift + 7) (j + 1) x p,
)

-- A number that `read_u64` returns fits 64 bits, and took one to ten bytes of the buffer.
pub read_u64_inv :
    (buf : Bytes) (pos x p : ℕ)
    → read_u64 buf pos ≡ ok (x, p)
    → (x < 2 ^ 64) × (pos < p) × (p ≤ length buf) × (p ≤ pos + 10)
unfolding read_u64
read_u64_inv buf pos x p e =
    omega (arith, read_loop_inv (drop pos buf) pos 0 0 0 x p, length-drop pos buf)
