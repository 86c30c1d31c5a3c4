-- ===== src/Format/Manifest/RoundTrip.antt =====
-- src/format/manifest.rs: a manifest that meets the checks survives its file.
use ripindex.Common.{
  ℕ, ◌+◌, ◌*◌, ◌^◌, ◌≤◌, ◌<◌, ◌≡◌, refl, Option, none, some, List, [], ◌∷◌, ◌++◌, length, take,
  drop, arith, All, append_assoc, append-nil, length-append, le→leb, eq→==, ◌==◌, true,
}
use ripindex.Format.{Bytes, ok, to_le_bytes, i64_bits, read_u32_le, read_u64_le, read_i64_le}
use ripindex.Format.Ints.{IsI64}
use ripindex.Format.Slice.{Fits, read_u32_le-eq, read_u64_le-eq, read_i64_le-eq}
use ripindex.Format.Checksum.{Crc32}
use ripindex.Format.Envelope.{manifest}
use ripindex.Format.Envelope.RoundTrip.{parse_verified-seal}
use ripindex.Format.Manifest.{
  SegmentEntry, Manifest, encode_entry, encode_entries, encode_body, encode, agree, decode_entries,
  decode_body, decode,
}
use ripindex.Format.Manifest.Entry.{FieldsFit, length-encode_entry, decode_entry-encode_entry}
use ripindex.Format.Manifest.Accepted.{Chain, IsAccepted, IsNext→check_entry}

pub record IsValid (m : Manifest) : Type 0 where
  pub generation : m.generation < 2 ^ 64
  pub next_segment_id : m.next_segment_id < 2 ^ 32
  pub nanos : IsI64 m.committed_unix_nanos
  pub state_gen : m.state_gen < 2 ^ 32
  pub state_crc : m.state_crc < 2 ^ 32
  pub state_len : m.state_len < 2 ^ 64
  pub segment_count : length m.segments < 2 ^ 32
  pub entries_fit : All FieldsFit m.segments
  pub accepted : IsAccepted m

length-encode_entries : (es : List SegmentEntry) → length (encode_entries es) ≡ 80 * length es
unfolding encode_entries
length-encode_entries [] = refl
length-encode_entries (e ∷ es) =
    omega (arith, length-encode_entry e (encode_entries es), length-encode_entries es)

decode_entries-encode_entries :
    (pre : Bytes) (es : List SegmentEntry) (next i : ℕ) (prev : Option SegmentEntry)
    → length pre ≡ 48 + i * 80
    → Fits (pre ++ encode_entries es)
    → All FieldsFit es
    → Chain next prev es
    → decode_entries (pre ++ encode_entries es) next (length es) i prev ≡ ok es
unfolding decode_entries encode_entries
decode_entries-encode_entries pre [] next i prev hp hf fits chain = refl
decode_entries-encode_entries pre (e ∷ es) next i prev hp hf (fit, fits) (is_next, chain) =
    let here = decode_entry-encode_entry pre (encode_entries es) e fit hf in
    let further : length (pre ++ encode_entry e) ≡ 48 + (i + 1) * 80 =
      omega (arith, length-append pre (encode_entry e), entry-length) in
    let rest =
      decode_entries-encode_entries (pre ++ encode_entry e) es next (i + 1) (some e) further
        (rw append_assoc hf) fits chain in
    rw (← hp, here, IsNext→check_entry next prev e is_next, rw append_assoc at rest)
  where
    entry-length : length (encode_entry e) ≡ 80
    entry-length = rw append-nil at (length-encode_entry e [])

-- The fixed part of the body, which the entries follow.
encode_header : Manifest → Bytes
encode_header m =
    to_le_bytes 8 m.generation
    ++ (to_le_bytes 4 m.next_segment_id
        ++ (to_le_bytes 4 (length m.segments)
            ++ (to_le_bytes 8 (i64_bits m.committed_unix_nanos)
                ++ (to_le_bytes 4 m.state_gen
                    ++ (to_le_bytes 4 m.state_crc
                        ++ (to_le_bytes 8 m.state_len ++ to_le_bytes 8 0))))))

encode_body-header : (m : Manifest) → encode_body m ≡ encode_header m ++ encode_entries m.segments
unfolding encode_body encode_header to_le_bytes
encode_body-header m = refl

length-encode_body : (m : Manifest) → length (encode_body m) ≡ 48 + 80 * length m.segments
unfolding encode_body to_le_bytes
length-encode_body m = omega (arith, length-encode_entries m.segments)

module _ (m : Manifest) (v : IsValid m) where
  body-Fits : Fits (encode_body m)
  body-Fits = omega (arith, length-encode_body m, v.segment_count)

  u32-at :
      (k n : ℕ)
      → k + 4 ≤ 48
      → take 4 (drop k (encode_body m)) ≡ to_le_bytes 4 n
      → n < 2 ^ 32
      → read_u32_le (encode_body m) k ≡ ok n
  u32-at k n hk e hn =
      read_u32_le-eq (encode_body m) k n body-Fits (omega (arith, length-encode_body m)) e hn

  u64-at :
      (k n : ℕ)
      → k + 8 ≤ 48
      → take 8 (drop k (encode_body m)) ≡ to_le_bytes 8 n
      → n < 2 ^ 64
      → read_u64_le (encode_body m) k ≡ ok n
  u64-at k n hk e hn =
      read_u64_le-eq (encode_body m) k n body-Fits (omega (arith, length-encode_body m)) e hn

  nanos-at : read_i64_le (encode_body m) 16 ≡ ok m.committed_unix_nanos
  unfolding encode_body to_le_bytes
  nanos-at =
      read_i64_le-eq (encode_body m) 16 m.committed_unix_nanos body-Fits
        (omega (arith, length-encode_body m)) refl v.nanos

  entries-at :
      decode_entries (encode_body m) m.next_segment_id (length m.segments) 0 none ≡ ok m.segments
  unfolding encode_header to_le_bytes
  entries-at = rw encode_body-header (
      decode_entries-encode_entries (encode_header m) m.segments m.next_segment_id 0 none refl
        (rw encode_body-header at body-Fits) v.entries_fit v.accepted.chain)

  state-agree : agree (m.state_gen == 0) (m.state_len == 0) ≡ true
  unfolding agree
  state-agree = ground (arith, v.accepted.state_agree)

  pub decode_body-encode_body : decode_body (encode_body m) ≡ ok m
  unfolding decode_body encode_body to_le_bytes
  decode_body-encode_body =
      let len = length-encode_body m in
      rw (
        le→leb 48 (length (encode_body m)) (omega (arith, len)),
        u64-at 0 m.generation (omega arith) refl v.generation,
        u32-at 8 m.next_segment_id (omega arith) refl v.next_segment_id,
        u32-at 12 (length m.segments) (omega arith) refl v.segment_count,
        nanos-at,
        u32-at 24 m.state_gen (omega arith) refl v.state_gen,
        u32-at 28 m.state_crc (omega arith) refl v.state_crc,
        u64-at 32 m.state_len (omega arith) refl v.state_len,
        u64-at 40 0 (omega arith) refl (omega arith),
        state-agree,
        eq→== _ _ len,
        entries-at,
      )

-- A manifest whose fields fit their widths and that meets the checks is decoded as it was encoded.
pub decode-encode : (c : Crc32) (m : Manifest) → IsValid m → decode c (encode c m) ≡ ok m
unfolding decode encode
decode-encode c m v =
    let (accepted, found) =
      parse_verified-seal c manifest (encode_body m)
        (omega (arith, length-encode_body m, v.segment_count)) in
    rw (accepted, found) (decode_body-encode_body m v)
