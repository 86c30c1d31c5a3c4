-- ===== src/Format/Del/Set.antt =====
-- src/format/del.rs, `Bitmap::new`, `set`, `get` and `count` on well-formed bitmaps.
use ripindex.Common.{
  ℕ, zero, suc, ◌+◌, ◌-◌, ◌*◌, ◌/◌, ◌%◌, ◌^◌, ◌≤◌, ◌<◌, ◌≡◌, refl, Bool, true, false, not, ◌&&◌,
  some, List, [], ◌∷◌, get_elem?, set, replicate, ltb, ◌==◌, if◌then◌else◌, arith, Bool-cases, inl,
  inr, ltb→lt, ◌⊎◌,
}
use mathlib.Core.Option
use native.Mathlib.Nat.{one-le-pow}
use ripindex.Format.{Bytes}
use ripindex.Format.Del.{
  Bitmap, has_bit, with_bit, new, set_bit, get, count_ones, ones, popcount, count, div_ceil,
}
use ripindex.Format.Del.Byte.{
  with_bit-lt, with_bit-below, with_bit-mod, has_bit-with_bit, has_bit-zero, count_ones-with_bit,
  count_ones-le, count_ones-below,
}

-- The bytes hold exactly `n` bits: eight to a byte, and the rest of the last byte is clear.
abbrev pub Holds : ℕ → Bytes → Type 0
Holds n [] = n ≡ 0
Holds n (b ∷ bs) = (0 < n) × (b < 256) × ((8 ≤ n) ⊎ (b < 2 ^ n)) × Holds (n - 8) bs

pub Spare-short : (n b : ℕ) → (8 ≤ n) ⊎ (b < 2 ^ n) → n < 8 → b < 2 ^ n
Spare-short n b (inl h) short = absurd (omega arith)
Spare-short n b (inr h) short = h

pub short-Spare : (n b : ℕ) → (n < 8 → b < 2 ^ n) → (8 ≤ n) ⊎ (b < 2 ^ n)
short-Spare n b h = elim (Bool-cases (ltb n 8)) [
  | inl short ↦ inr (h (ltb→lt _ _ short))
  | inr long ↦ inl (ground (arith, long))
]

pub record IsValid (b : Bitmap) : Type 0 where
  pub num_docs-lt : b.num_docs < 2 ^ 32
  pub holds : Holds b.num_docs b.bits

-- Byte `q` holds the bits from `8 * q` on.
module _ (k : ℕ) (hk : k < 8) where
  byte-in_range :
      (bs : Bytes) (n q : ℕ)
      → Holds n bs
      → 8 * q + k < n
      → (byte : ℕ) × (get_elem? bs q ≡ some byte) × (byte < 256)
  byte-in_range [] n q h hq = absurd (omega arith)
  byte-in_range (b ∷ bs) n zero h hq = (b, refl, h.1)
  byte-in_range (b ∷ bs) n (suc q) h hq = byte-in_range bs (n - 8) q h.3 (omega arith)

  set-Holds :
      (bs : Bytes) (n q byte : ℕ)
      → Holds n bs
      → 8 * q + k < n
      → get_elem? bs q ≡ some byte
      → Holds n (set bs q (with_bit byte k))
  set-Holds [] n q byte h hq e = h
  set-Holds (b ∷ bs) n zero byte h hq e =
      let same : b ≡ byte = cc in
      rw (← same) (
        h.0,
        with_bit-lt b k h.1,
        short-Spare n _
            (λ short. with_bit-below b n k short (Spare-short n b h.2 short) h.1 (omega arith)),
        h.3,
      )
  set-Holds (b ∷ bs) n (suc q) byte h hq e =
      (h.0, h.1, h.2, set-Holds bs (n - 8) q byte h.3 (omega arith) e)

ones-set :
    (bs : Bytes) (q v byte : ℕ)
    → get_elem? bs q ≡ some byte
    → ones (set bs q v) + count_ones byte ≡ ones bs + count_ones v
unfolding ones
ones-set [] q v byte e = cc
ones-set (b ∷ bs) zero v byte e = ground arith
ones-set (b ∷ bs) (suc q) v byte e = omega (arith, ones-set bs q v byte e)

get_elem?-set {ℓ} :
    {A : Type ℓ} (xs : List A) (q p : ℕ) (v old : A)
    → get_elem? xs q ≡ some old
    → get_elem? (set xs q v) p ≡ (if q == p then some v else get_elem? xs p)
get_elem?-set [] q p v old e = cc
get_elem?-set (x ∷ xs) zero zero v old e = refl
get_elem?-set (x ∷ xs) zero (suc p) v old e = ground arith
get_elem?-set (x ∷ xs) (suc q) zero v old e = ground arith
get_elem?-set (x ∷ xs) (suc q) (suc p) v old e = ground (arith, get_elem?-set xs q p v old e)

-- A bitmap of `n` documents with no bit set.
Holds-zeros : (k n : ℕ) → 8 * k < n + 8 → n ≤ 8 * k → Holds n (replicate k 0)
Holds-zeros zero n h h' = omega arith
Holds-zeros (suc k) n h h' = (
  omega arith,
  omega arith,
  inr (one-le-pow n 2 (omega arith)),
  Holds-zeros k (n - 8) (omega arith) (omega arith),
)

pub ones-Holds : (n : ℕ) (bs : Bytes) → Holds n bs → ones bs ≤ n
unfolding ones
ones-Holds n [] h = omega arith
ones-Holds n (b ∷ bs) h =
    ground (arith, ones-Holds (n - 8) bs h.3, count_ones-le b h.1, count_ones-below b n, h.2)

pub count-ones : (b : Bitmap) → IsValid b → count b ≡ ones b.bits
unfolding count popcount
count-ones b v = ground (arith, ones-Holds b.num_docs b.bits v.holds, v.num_docs-lt)

-- `set` on the bitmap `b` at `i` leaves `b'` and answers `newly`.
pub record SetResult (b : Bitmap) (i : ℕ) (b' : Bitmap) (newly : Bool) : Type 0 where
  pub returned : set_bit b i ≡ some (b', newly)
  pub valid : IsValid b'
  pub before : get b i ≡ some (ltb i b.num_docs && not newly)
  pub counted : count b' ≡ count b + (if newly then 1 else 0)
  pub after : (j : ℕ) → get b' j ≡ (if ltb i b.num_docs && (i == j) then some true else get b j)

set_out_of_range : (b : Bitmap) (i : ℕ) → IsValid b → b.num_docs ≤ i → SetResult b i b false
unfolding set_bit get
set_out_of_range b i v h = record {
  returned = ground arith;
  valid = v;
  before = ground arith;
  counted = omega arith;
  after = λ j. ground arith;
}

module _ (b : Bitmap) (i byte : ℕ) (v : IsValid b) (h : i < b.num_docs) (lt : byte < 256)
    (at : get_elem? b.bits (i / 8) ≡ some byte) where
  abbrev changed : Bitmap
  changed = record b { bits = set b.bits (i / 8) (with_bit byte i) }

  changed-IsValid : IsValid changed
  changed-IsValid = record {
    num_docs-lt = v.num_docs-lt;
    holds =
        rw (with_bit-mod byte i)
          (set-Holds (i % 8) (omega arith) b.bits b.num_docs (i / 8) byte v.holds (omega arith) at);
  }

  changed-get :
      (j : ℕ) → get changed j ≡ (if ltb i b.num_docs && (i == j) then some true else get b j)
  unfolding get
  changed-get j = ground (
    arith,
    get_elem?-set b.bits (i / 8) (j / 8) (with_bit byte i) byte at,
    has_bit-with_bit byte i lt j,
  )

  set_in_range : SetResult b i changed (not (has_bit byte i))
  unfolding set_bit get
  set_in_range = record {
    returned = ground (arith, at);
    valid = changed-IsValid;
    before = ground (arith, at);
    counted = ground (
      arith,
      count-ones b v,
      count-ones changed changed-IsValid,
      ones-set b.bits (i / 8) (with_bit byte i) byte at,
      count_ones-with_bit byte i lt,
    );
    after = changed-get;
  }

-- On a well-formed bitmap `set` never indexes out of bounds. It answers whether the bit was clear,
-- keeps the bitmap well-formed, counts the bit if it is new, sets that bit and no other; an index
-- past the documents changes nothing.
pub set_bit_lem :
    (b : Bitmap) (i : ℕ) → IsValid b → (b' : Bitmap) × (newly : Bool) × SetResult b i b' newly
set_bit_lem b i v = elim (Bool-cases (ltb i b.num_docs)) [
  | inl h ↦
      let lt = ltb→lt _ _ h in
      let (byte, at, small) =
        byte-in_range (i % 8) (omega arith) b.bits b.num_docs (i / 8) v.holds (omega arith) in
      (changed b i byte v lt small at, not (has_bit byte i), set_in_range b i byte v lt small at)
  | inr h ↦ (b, false, set_out_of_range b i v (ground arith))
]

get-zeros :
    (k q i : ℕ)
    → q < k
    → Option.map (λ byte. has_bit byte i) (get_elem? (replicate k 0) q) ≡ some false
get-zeros zero q i h = absurd (omega arith)
get-zeros (suc k) zero i h = rw (has_bit-zero i)
get-zeros (suc k) (suc q) i h = get-zeros k q i (omega arith)

ones-zeros : (k : ℕ) → ones (replicate k 0) ≡ 0
unfolding ones count_ones
ones-zeros zero = refl
ones-zeros (suc k) = omega (arith, ones-zeros k)

-- A new bitmap of a number of documents of 32 bits is well-formed: it counts no document, and
-- answers false at every index.
pub new_lem :
    (n : ℕ)
    → n < 2 ^ 32
    → IsValid (new n) × (count (new n) ≡ 0) × ((i : ℕ) → get (new n) i ≡ some false)
unfolding new get count popcount
new_lem n h = (
  record { num_docs-lt = h; holds = Holds-zeros _ n (ground arith) (ground arith) },
  rw (ones-zeros (div_ceil n 8)) refl,
  λ i. ground (arith, get-zeros (div_ceil n 8) (i / 8) i),
)
