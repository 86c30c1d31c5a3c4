-- ===== src/Format/Manifest.antt =====
-- src/format/manifest.rs: the commit point of the index, the list of its segments.
pub mod Entry
pub mod RoundTrip
pub mod Accepted
use ripindex.Common.{
  ℕ, zero, suc, ◌+◌, ◌-◌, ◌*◌, ◌%◌, ◌^◌, Bool, true, false, not, Option, none, some, List, [], ◌∷◌,
  ◌++◌, length, ltb, leb, ◌==◌, if◌then◌else◌,
}
use ripindex.Format.{
  Bytes, ℤ, Result, ok, err, ◌>>=◌, ◌>>◌, require, truncated, corrupt, reserved_nonzero,
  state_gen_len_disagree, segment_id_not_below_next, manifest_body_length, segments_overlap,
  duplicate_segment_id, segment_exceeds_id_space, del_gen_len_disagree, deleted_exceeds_docs,
  to_le_bytes, i64_bits, read_u32_le, read_u64_le, read_i64_le,
}
use ripindex.Format.Checksum.{Crc32}
use ripindex.Format.Envelope
use ripindex.Format.Envelope.{manifest}

abbrev pub body_header_len : ℕ
body_header_len = 48

abbrev pub entry_len : ℕ
entry_len = 80

pub record SegmentEntry : Type 0 where
  pub segment_id : ℕ
  pub del_gen : ℕ
  pub base_doc : ℕ
  pub num_docs : ℕ
  pub num_deleted : ℕ
  pub idx_crc : ℕ
  pub doc_crc : ℕ
  pub del_crc : ℕ
  pub idx_len : ℕ
  pub doc_len : ℕ
  pub del_len : ℕ
  pub num_tokens : ℕ
  pub num_postings : ℕ
  pub num_terms : ℕ

pub record Manifest : Type 0 where
  pub generation : ℕ
  pub next_segment_id : ℕ
  pub committed_unix_nanos : ℤ
  pub state_gen : ℕ
  pub state_crc : ℕ
  pub state_len : ℕ
  pub segments : List SegmentEntry

-- What `SegmentEntry::encode` appends.
unfoldable pub encode_entry : SegmentEntry → Bytes
encode_entry e =
    to_le_bytes 4 e.segment_id
    ++ (to_le_bytes 4 e.del_gen
        ++ (to_le_bytes 4 e.base_doc
            ++ (to_le_bytes 4 e.num_docs
                ++ (to_le_bytes 4 e.num_deleted
                    ++ (to_le_bytes 4 e.idx_crc
                        ++ (to_le_bytes 4 e.doc_crc
                            ++ (to_le_bytes 4 e.del_crc
                                ++ (to_le_bytes 8 e.idx_len
                                    ++ (to_le_bytes 8 e.doc_len
                                        ++ (to_le_bytes 8 e.del_len
                                            ++ (to_le_bytes 8 e.num_tokens
                                                ++ (to_le_bytes 8 e.num_postings
                                                    ++ to_le_bytes 8 e.num_terms))))))))))))

unfoldable pub decode_entry : Bytes → ℕ → Result SegmentEntry
decode_entry b at = do
  segment_id ← read_u32_le b at
  del_gen ← read_u32_le b (at + 4)
  base_doc ← read_u32_le b (at + 8)
  num_docs ← read_u32_le b (at + 12)
  num_deleted ← read_u32_le b (at + 16)
  idx_crc ← read_u32_le b (at + 20)
  doc_crc ← read_u32_le b (at + 24)
  del_crc ← read_u32_le b (at + 28)
  idx_len ← read_u64_le b (at + 32)
  doc_len ← read_u64_le b (at + 40)
  del_len ← read_u64_le b (at + 48)
  num_tokens ← read_u64_le b (at + 56)
  num_postings ← read_u64_le b (at + 64)
  num_terms ← read_u64_le b (at + 72)
  ok (record {
    segment_id = segment_id;
    del_gen = del_gen;
    base_doc = base_doc;
    num_docs = num_docs;
    num_deleted = num_deleted;
    idx_crc = idx_crc;
    doc_crc = doc_crc;
    del_crc = del_crc;
    idx_len = idx_len;
    doc_len = doc_len;
    del_len = del_len;
    num_tokens = num_tokens;
    num_postings = num_postings;
    num_terms = num_terms;
  })

unfoldable pub end_doc : SegmentEntry → ℕ
end_doc e = e.base_doc + e.num_docs

unfoldable pub live_docs : SegmentEntry → ℕ
live_docs e = e.num_docs - e.num_deleted

unfoldable pub total_bytes : SegmentEntry → ℕ
total_bytes e = ((e.idx_len + e.doc_len) % 2 ^ 64 + e.del_len) % 2 ^ 64

unfoldable pub encode_entries : List SegmentEntry → Bytes
encode_entries [] = []
encode_entries (e ∷ es) = encode_entry e ++ encode_entries es

unfoldable pub encode_body : Manifest → Bytes
encode_body m =
    to_le_bytes 8 m.generation
    ++ (to_le_bytes 4 m.next_segment_id
        ++ (to_le_bytes 4 (length m.segments)
            ++ (to_le_bytes 8 (i64_bits m.committed_unix_nanos)
                ++ (to_le_bytes 4 m.state_gen
                    ++ (to_le_bytes 4 m.state_crc
                        ++ (to_le_bytes 8 m.state_len
                            ++ (to_le_bytes 8 0 ++ encode_entries m.segments)))))))

unfoldable pub encode : Crc32 → Manifest → Bytes
encode c m = Envelope.seal c manifest (encode_body m)

-- `a == b` on tests.
unfoldable pub agree : Bool → Bool → Bool
agree true b = b
agree false b = not b

-- The checks of an entry against the one before it.
unfoldable pub follows : Option SegmentEntry → SegmentEntry → Result (Unit {0})
unfolding end_doc
follows none e = ok tt
follows (some prev) e = do
  require (leb (end_doc prev) e.base_doc) (corrupt segments_overlap)
  require (not (e.segment_id == prev.segment_id)) (corrupt duplicate_segment_id)

unfoldable pub check_entry : ℕ → Option SegmentEntry → SegmentEntry → Result (Unit {0})
unfolding end_doc follows agree
check_entry next_segment_id prev e = do
  require (ltb e.segment_id next_segment_id) (corrupt segment_id_not_below_next)
  follows prev e
  require (leb (end_doc e) (2 ^ 32 - 1 + 1)) (corrupt segment_exceeds_id_space)
  require (agree (e.del_gen == 0) (e.del_len == 0)) (corrupt del_gen_len_disagree)
  require (leb e.num_deleted e.num_docs) (corrupt deleted_exceeds_docs)

-- The loop over the entries: the rounds left, the index, the last entry pushed.
unfoldable pub decode_entries : Bytes → ℕ → ℕ → ℕ → Option SegmentEntry → Result (List SegmentEntry)
decode_entries b next_segment_id zero i prev = ok []
decode_entries b next_segment_id (suc rounds) i prev = do
  e ← decode_entry b (body_header_len + i * entry_len)
  check_entry next_segment_id prev e
  es ← decode_entries b next_segment_id rounds (i + 1) (some e)
  ok (e ∷ es)

unfoldable pub decode_body : Bytes → Result Manifest
unfolding agree
decode_body b = do
  require (leb body_header_len (length b)) (truncated (length b) body_header_len)
  generation ← read_u64_le b 0
  next_segment_id ← read_u32_le b 8
  num_segments ← read_u32_le b 12
  committed_unix_nanos ← read_i64_le b 16
  state_gen ← read_u32_le b 24
  state_crc ← read_u32_le b 28
  state_len ← read_u64_le b 32
  reserved ← read_u64_le b 40
  require (reserved == 0) (corrupt reserved_nonzero)
  require (agree (state_gen == 0) (state_len == 0)) (corrupt state_gen_len_disagree)
  require (length b == body_header_len + entry_len * num_segments)
      (corrupt (manifest_body_length (length b) (body_header_len + entry_len * num_segments)))
  segments ← decode_entries b next_segment_id num_segments 0 none
  ok (record {
    generation = generation;
    next_segment_id = next_segment_id;
    committed_unix_nanos = committed_unix_nanos;
    state_gen = state_gen;
    state_crc = state_crc;
    state_len = state_len;
    segments = segments;
  })

unfoldable pub decode : Crc32 → Bytes → Result Manifest
decode c bytes = do
  env ← Envelope.parse_verified c manifest bytes
  decode_body (Envelope.body_of bytes env)
