-- ===== src/Format/Manifest/Entry.antt =====
-- src/format/manifest.rs: one segment entry, written and read back.
use ripindex.Common.{ℕ, ◌+◌, ◌^◌, ◌≤◌, ◌<◌, ◌≡◌, refl, ◌++◌, length, take, drop, arith}
use ripindex.Format.{Bytes, ok, to_le_bytes, read_u32_le, read_u64_le}
use ripindex.Format.Slice.{Fits, read_u32_le-after, read_u64_le-after}
use ripindex.Format.Manifest.{SegmentEntry, encode_entry, decode_entry}

-- Each field fits its width.
pub record FieldsFit (e : SegmentEntry) : Type 0 where
  pub segment_id : e.segment_id < 2 ^ 32
  pub del_gen : e.del_gen < 2 ^ 32
  pub base_doc : e.base_doc < 2 ^ 32
  pub num_docs : e.num_docs < 2 ^ 32
  pub num_deleted : e.num_deleted < 2 ^ 32
  pub idx_crc : e.idx_crc < 2 ^ 32
  pub doc_crc : e.doc_crc < 2 ^ 32
  pub del_crc : e.del_crc < 2 ^ 32
  pub idx_len : e.idx_len < 2 ^ 64
  pub doc_len : e.doc_len < 2 ^ 64
  pub del_len : e.del_len < 2 ^ 64
  pub num_tokens : e.num_tokens < 2 ^ 64
  pub num_postings : e.num_postings < 2 ^ 64
  pub num_terms : e.num_terms < 2 ^ 64

pub length-encode_entry :
    (e : SegmentEntry) (rest : Bytes) → length (encode_entry e ++ rest) ≡ 80 + length rest
unfolding encode_entry to_le_bytes
length-encode_entry e rest = omega arith

module _ (pre rest : Bytes) (e : SegmentEntry) (fit : FieldsFit e)
    (hf : Fits (pre ++ (encode_entry e ++ rest))) where
  abbrev buf : Bytes
  buf = encode_entry e ++ rest

  at_u32 :
      (k v : ℕ)
      → k + 4 ≤ 80
      → take 4 (drop k buf) ≡ to_le_bytes 4 v
      → v < 2 ^ 32
      → read_u32_le (pre ++ buf) (length pre + k) ≡ ok v
  at_u32 k v hk e' hv =
      read_u32_le-after pre buf k v hf (omega (arith, length-encode_entry e rest)) e' hv

  at_u64 :
      (k v : ℕ)
      → k + 8 ≤ 80
      → take 8 (drop k buf) ≡ to_le_bytes 8 v
      → v < 2 ^ 64
      → read_u64_le (pre ++ buf) (length pre + k) ≡ ok v
  at_u64 k v hk e' hv =
      read_u64_le-after pre buf k v hf (omega (arith, length-encode_entry e rest)) e' hv

  first : read_u32_le (pre ++ buf) (length pre) ≡ ok e.segment_id
  unfolding encode_entry to_le_bytes
  first =
      let here : length pre + 0 ≡ length pre = omega arith in
      rw here at (at_u32 0 e.segment_id (omega arith) refl fit.segment_id)

  -- An entry that stands anywhere in a buffer is read back.
  pub decode_entry-encode_entry : decode_entry (pre ++ buf) (length pre) ≡ ok e
  unfolding decode_entry encode_entry to_le_bytes
  decode_entry-encode_entry = rw (
    first,
    at_u32 4 e.del_gen (omega arith) refl fit.del_gen,
    at_u32 8 e.base_doc (omega arith) refl fit.base_doc,
    at_u32 12 e.num_docs (omega arith) refl fit.num_docs,
    at_u32 16 e.num_deleted (omega arith) refl fit.num_deleted,
    at_u32 20 e.idx_crc (omega arith) refl fit.idx_crc,
    at_u32 24 e.doc_crc (omega arith) refl fit.doc_crc,
    at_u32 28 e.del_crc (omega arith) refl fit.del_crc,
    at_u64 32 e.idx_len (omega arith) refl fit.idx_len,
    at_u64 40 e.doc_len (omega arith) refl fit.doc_len,
    at_u64 48 e.del_len (omega arith) refl fit.del_len,
    at_u64 56 e.num_tokens (omega arith) refl fit.num_tokens,
    at_u64 64 e.num_postings (omega arith) refl fit.num_postings,
    at_u64 72 e.num_terms (omega arith) refl fit.num_terms,
  )
