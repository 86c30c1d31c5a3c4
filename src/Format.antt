-- ===== src/Format.antt =====
-- src/format/mod.rs: the errors of the decoders and the bounds-checked fixed-width reads.
-- A byte slice is a list of numbers below 256. `usize` has 64 bits.
pub mod Ints
pub mod Slice
pub mod Binds
pub mod Varint
pub mod Checksum
pub mod Envelope
pub mod Del
pub mod Manifest
pub mod Idx
pub mod Doc
pub mod Overlay
use ripindex.Common.{
  ℕ, zero, suc, ◌+◌, ◌-◌, ◌*◌, ◌/◌, ◌%◌, ◌^◌, ◌<◌, Bool, true, false, Option, none, some, List, [],
  ◌∷◌, length, take, drop, ltb, leb, if◌then◌else◌,
}

-- The messages of `FormatError::Corrupt`, one constructor for each text.
pub data Reason : Type 0 where
  varint_overflow varint_too_long varint_exceeds_u32 : Reason
  offset_exceeds_address_space : Reason
  nonzero_header_flags bad_footer_magic : Reason
  body_len_mismatch : ℕ → ℕ → Reason
  bitmap_length bitmap_popcount bits_past_num_docs : Reason
  reserved_nonzero state_gen_len_disagree segment_id_not_below_next : Reason
  manifest_body_length : ℕ → ℕ → Reason
  segments_overlap duplicate_segment_id segment_exceeds_id_space : Reason
  del_gen_len_disagree deleted_exceeds_docs : Reason
  zero_doc_delta doc_id_overflow zero_term_frequency : Reason
  zero_position_delta position_overflow pos_bytes_disagree : Reason
  doc_count_disagrees list_length_disagrees : Reason
  toc_not_tiling : Reason
  doc_regions_not_tiling num_indexed_exceeds_num_docs : Reason
  record_out_of_range counters_disagree : Reason
  overlay_not_tiling patch_out_of_range patches_not_sorted patch_bad_path : Reason
  reserved_bytes_set bad_path : ℕ → Reason
  bad_status nonindexed_with_len : ℕ → ℕ → Reason

-- The messages of `FormatError::Invariant`.
pub data Broken : Type 0 where
  doc_ids_not_increasing no_positions positions_not_increasing : Broken
  path_heap_too_large nonindexed_with_length overlay_heap_too_large : Broken

pub data FormatError : Type 0 where
  truncated : ℕ → ℕ → FormatError
  bad_magic : FormatError
  version : ℕ → FormatError
  corrupt : Reason → FormatError
  checksum : ℕ → ℕ → FormatError
  invariant : Broken → FormatError

pub data Result {ℓ} (A : Type ℓ) : Type ℓ where
  ok : A → Result A
  err : FormatError → Result A

-- The operator `?`: an error ends the function.
infixl 5 ◌>>=◌
abbrev pub ◌>>=◌ {ℓ κ} :
    {Value : Type ℓ} {Out : Type κ} → Result Value → (Value → Result Out) → Result Out
err e >>= rest = err e
ok value >>= rest = rest value

-- `if !b { return Err(e) }`
abbrev pub require : Bool → FormatError → Result (Unit {0})
require true e = ok tt
require false e = err e

infixl 5 ◌>>◌
abbrev pub ◌>>◌ {ℓ} : {Out : Type ℓ} → Result (Unit {0}) → Result Out → Result Out
checked >> rest = checked >>= λ _. rest

-- `.ok()`
abbrev pub to_option {ℓ} : {A : Type ℓ} → Result A → Option A
to_option (ok a) = some a
to_option (err e) = none

abbrev pub Bytes : Type 0
Bytes = List ℕ

abbrev pub IsByte : ℕ → Type 0
IsByte b = b < 256

-- `i64`: the numbers whose bit patterns are below and above 2^63. `negsuc n` is -(n + 1).
pub data ℤ : Type 0 where
  pos : ℕ → ℤ
  negsuc : ℕ → ℤ

-- `v.to_le_bytes()` of a number of `w` bytes, and `from_le_bytes`.
unfoldable pub to_le_bytes : ℕ → ℕ → Bytes
to_le_bytes zero v = []
to_le_bytes (suc w) v = v % 256 ∷ to_le_bytes w (v / 256)

unfoldable pub from_le_bytes : Bytes → ℕ
from_le_bytes [] = 0
from_le_bytes (b ∷ bs) = b + 256 * from_le_bytes bs

-- The bit pattern of an `i64`, and the `i64` of a bit pattern.
unfoldable pub i64_bits : ℤ → ℕ
i64_bits (pos n) = n
i64_bits (negsuc n) = 2 ^ 64 - 1 - n

unfoldable pub bits_i64 : ℕ → ℤ
bits_i64 v = if ltb v (2 ^ 63) then pos v else negsuc (2 ^ 64 - 1 - v)

unfoldable pub slice : Bytes → ℕ → ℕ → Result Bytes
slice buf at len =
    if ltb (at + len) (2 ^ 64)
    then (if leb (at + len) (length buf)
        then ok (take len (drop at buf))
        else err (truncated at len))
    else err (truncated at len)

unfoldable pub read_u32_le : Bytes → ℕ → Result ℕ
read_u32_le buf at = do bs ← slice buf at 4; ok (from_le_bytes bs)

unfoldable pub read_u64_le : Bytes → ℕ → Result ℕ
read_u64_le buf at = do bs ← slice buf at 8; ok (from_le_bytes bs)

unfoldable pub read_i64_le : Bytes → ℕ → Result ℤ
read_i64_le buf at = do bs ← slice buf at 8; ok (bits_i64 (from_le_bytes bs))

unfoldable pub to_usize : ℕ → Result ℕ
to_usize v = if ltb v (2 ^ 64) then ok v else err (corrupt offset_exceeds_address_space)
