-- ===== src/Format/Doc/Record.antt =====
-- src/format/doc.rs, `record`: one record, written and read back.
use ripindex.Common.{
  ℕ, ◌+◌, ◌^◌, ◌≤◌, ◌<◌, ◌≡◌, refl, ap, ◌∙◌, some, [], ◌∷◌, ◌++◌, length, get_elem?, take, drop,
  arith, length-append, get_elem?-append,
}
use ripindex.Format.{Bytes, ok, to_le_bytes, read_u32_le, read_u64_le, read_i64_le}
use ripindex.Format.Slice.{Fits, read_u32_le-after, read_u64_le-after, read_i64_le-eq}
use ripindex.Common.{drop-append_add}
use ripindex.Format.Doc.{DocIn, DocRecord, byte, encode_doc, read_fields, with_status, read_record}
use ripindex.Format.Doc.Layout.{FieldsFit, length-encode_doc}

-- What is read of a document whose path stands at `off`.
abbrev pub record_for : ℕ → DocIn → DocRecord
record_for off d = record {
  inode = d.inode;
  mtime_nanos = d.mtime_nanos;
  size = d.size;
  len = d.len;
  status = byte d.kind;
  content_hash = d.content_hash;
  path_off = off;
  path_len = length d.path;
}

module _ (pre rest : Bytes) (off : ℕ) (d : DocIn) (fit : FieldsFit d) (off-lt : off < 2 ^ 32)
    (path-lt : length d.path < 2 ^ 32) (hf : Fits (pre ++ (encode_doc off d ++ rest))) where
  abbrev buf : Bytes
  buf = encode_doc off d ++ rest

  at_u32 :
      (k v : ℕ)
      → k + 4 ≤ 48
      → take 4 (drop k buf) ≡ to_le_bytes 4 v
      → v < 2 ^ 32
      → read_u32_le (pre ++ buf) (length pre + k) ≡ ok v
  at_u32 k v hk e hv =
      read_u32_le-after pre buf k v hf (omega (arith, length-encode_doc off d rest)) e hv

  at_u64 :
      (k v : ℕ)
      → k + 8 ≤ 48
      → take 8 (drop k buf) ≡ to_le_bytes 8 v
      → v < 2 ^ 64
      → read_u64_le (pre ++ buf) (length pre + k) ≡ ok v
  at_u64 k v hk e hv =
      read_u64_le-after pre buf k v hf (omega (arith, length-encode_doc off d rest)) e hv

  first : read_u64_le (pre ++ buf) (length pre) ≡ ok d.inode
  unfolding encode_doc to_le_bytes
  first =
      let here : length pre + 0 ≡ length pre = omega arith in
      rw here at (at_u64 0 d.inode (omega arith) refl fit.inode)

  nanos : read_i64_le (pre ++ buf) (length pre + 8) ≡ ok d.mtime_nanos
  nanos =
      read_i64_le-eq (pre ++ buf) (length pre + 8) d.mtime_nanos hf
        (omega (arith, length-append pre buf, length-encode_doc off d rest))
        (rw (drop-append_add pre buf 8) (unfold encode_doc in unfold to_le_bytes in refl)) fit.nanos

  status : get_elem? (pre ++ buf) (length pre + 36) ≡ some (byte d.kind)
  unfolding encode_doc to_le_bytes
  status = get_elem?-append pre buf 36

  fields : read_fields (pre ++ buf) (length pre) (byte d.kind) ≡ ok (record_for off d)
  unfolding read_fields encode_doc to_le_bytes
  fields = rw (
    first,
    nanos,
    at_u64 16 d.size (omega arith) refl fit.size,
    at_u32 24 d.len (omega arith) refl fit.len,
    at_u32 28 off (omega arith) refl off-lt,
    at_u32 32 (length d.path) (omega arith) refl path-lt,
    at_u64 40 d.content_hash (omega arith) refl fit.hash,
  )

  -- A record that stands anywhere in a buffer is read back.
  pub read_record-encode_doc : read_record (pre ++ buf) (length pre) ≡ some (record_for off d)
  unfolding read_record
  read_record-encode_doc =
      ap (with_status (pre ++ buf) (length pre)) status ∙ unfold with_status in rw fields refl

  -- So are its status and its length alone.
  pub status-encode_doc : get_elem? (pre ++ buf) (length pre + 36) ≡ some (byte d.kind)
  status-encode_doc = status

  pub len-encode_doc : read_u32_le (pre ++ buf) (length pre + 24) ≡ ok d.len
  unfolding encode_doc to_le_bytes
  len-encode_doc = at_u32 24 d.len (omega arith) refl fit.len

  pub reserved-encode_doc : take 3 (drop (length pre + 37) (pre ++ buf)) ≡ 0 ∷ 0 ∷ 0 ∷ []
  unfolding encode_doc to_le_bytes
  reserved-encode_doc = rw (drop-append_add pre buf 37) refl
