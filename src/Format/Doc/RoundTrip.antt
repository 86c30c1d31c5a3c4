-- ===== src/Format/Doc/RoundTrip.antt =====
-- src/format/doc.rs: the file of a table is accepted, and each document is found in it.
use ripindex.Common.{
  ℕ, ◌+◌, ◌*◌, ◌%◌, ◌^◌, ◌≤◌, ◌<◌, ◌≡◌, refl, ap, ◌∙◌, List, [], ◌++◌, length, take, drop, arith,
  append_assoc, length-append, take-append, drop-append, le→leb, eq→==,
}
use ripindex.Format.{Bytes, ok, to_le_bytes, read_u32_le, read_u64_le, slice}
use ripindex.Format.Slice.{Fits, slice-eq_ok, read_u32_le-eq, read_u64_le-eq, to_usize-eq}
use ripindex.Format.Checksum.{Crc32}
use ripindex.Format.Envelope
use ripindex.Format.Envelope.{header, footer, doc}
use ripindex.Format.Envelope.RoundTrip.{file, length-file, envelope, parse-file, body_of-file}
use ripindex.Format.Doc.{DocIn, DocTableView, Written, table_body, encode, parse_body, parse}
use ripindex.Format.Doc.Layout.{
  IsTable, heap, records_of, count_indexed, sum_len, after, length-records_of, count_indexed-le,
  sum_len-le, encode_rounds-after,
}

abbrev pub nothing : Written
nothing = record { records = []; paths = []; num_indexed = 0; total_len = 0 }

-- The body of the file of a table, the file, and the view of it.
abbrev pub body : List DocIn → Bytes
body docs = table_body (length docs) (after nothing docs)

abbrev pub doc_file : Crc32 → List DocIn → Bytes
doc_file c docs = file doc (body docs) (Envelope.crc c (body docs))

abbrev pub view : Crc32 → List DocIn → DocTableView
view c docs = record {
  bytes = doc_file c docs;
  env = envelope (length (body docs)) (Envelope.crc c (body docs));
  num_docs = length docs;
  num_indexed = 0 + count_indexed docs;
  total_len = 0 + sum_len docs;
  paths = heap docs;
}

-- The first 48 bytes of the file.
abbrev pub front : List DocIn → Bytes
front docs =
    header doc
    ++ (to_le_bytes 4 (length docs)
        ++ (to_le_bytes 4 (0 + count_indexed docs)
            ++ (to_le_bytes 8 (0 + sum_len docs)
                ++ (to_le_bytes 8 (16 + (32 + length (records_of 0 docs)))
                    ++ to_le_bytes 8 (length (heap docs))))))

pub length-front : (docs : List DocIn) → length (front docs) ≡ 48
unfolding header to_le_bytes
length-front docs = refl

-- What follows the records.
abbrev pub tail : Crc32 → List DocIn → Bytes
tail c docs = heap docs ++ footer (length (body docs)) (Envelope.crc c (body docs))

pub doc_file-eq :
    (c : Crc32) (docs : List DocIn)
    → doc_file c docs ≡ front docs ++ (records_of 0 docs ++ tail c docs)
unfolding header to_le_bytes table_body
doc_file-eq c docs =
    ap (λ rest. front docs ++ rest) (append_assoc (records_of 0 docs) (heap docs) _)

pub length-body :
    (docs : List DocIn) → length (body docs) ≡ 32 + length docs * 48 + length (heap docs)
unfolding to_le_bytes table_body
length-body docs =
    omega (arith, length-append (records_of 0 docs) (heap docs), length-records_of 0 docs)

module _ (docs : List DocIn) (t : IsTable docs) where
  body-Fits : Fits (body docs)
  body-Fits = omega (arith, length-body docs, t.count, t.paths)

  counts-small : (0 + count_indexed docs < 2 ^ 32) × (0 + sum_len docs < 2 ^ 64)
  counts-small = (
    omega (arith, count_indexed-le docs, t.count),
    omega (arith, sum_len-le docs t.fits, t.count),
  )

  u32-at :
      (k n : ℕ)
      → k + 4 ≤ 32
      → take 4 (drop k (body docs)) ≡ to_le_bytes 4 n
      → n < 2 ^ 32
      → read_u32_le (body docs) k ≡ ok n
  u32-at k n hk e hn =
      read_u32_le-eq (body docs) k n body-Fits (omega (arith, length-body docs)) e hn

  u64-at :
      (k n : ℕ)
      → k + 8 ≤ 32
      → take 8 (drop k (body docs)) ≡ to_le_bytes 8 n
      → n < 2 ^ 64
      → read_u64_le (body docs) k ≡ ok n
  u64-at k n hk e hn =
      read_u64_le-eq (body docs) k n body-Fits (omega (arith, length-body docs)) e hn

  module _ (c : Crc32) where
    pub doc_file-Fits : Fits (doc_file c docs)
    doc_file-Fits = omega (
      arith,
      length-file doc (body docs) (Envelope.crc c (body docs)),
      length-body docs,
      t.count,
      t.paths,
    )

    paths-at :
        slice (doc_file c docs) (16 + (32 + length (records_of 0 docs))) (length (heap docs))
        ≡ ok (heap docs)
    paths-at =
        let place : 16 + (32 + length (records_of 0 docs))
            ≡ length (front docs ++ records_of 0 docs) =
          omega (arith, length-append (front docs) (records_of 0 docs), length-front docs) in
        slice-eq_ok (doc_file c docs) _ (length (heap docs)) doc_file-Fits (
          omega (
            arith,
            length-file doc (body docs) (Envelope.crc c (body docs)),
            length-body docs,
            length-records_of 0 docs,
          ))
        ∙ rw
            (
              place,
              doc_file-eq c docs,
              ← append_assoc (front docs) (records_of 0 docs) (tail c docs),
              drop-append,
              take-append,
            )
            refl

    body-parsed :
        parse_body
          (doc_file c docs)
          (envelope (length (body docs)) (Envelope.crc c (body docs)))
          (body docs)
        ≡ ok (view c docs)
    unfolding parse_body table_body to_le_bytes
    body-parsed =
        let off = 16 + (32 + length (records_of 0 docs)) in
        let recs = length-records_of 0 docs in
        let end : (off + length (heap docs)) % 2 ^ 64 ≡ 16 + length (body docs) =
          omega (arith, recs, length-body docs, t.count, t.paths) in
        let start : off ≡ 16 + 32 + length docs * 48 = omega (arith, recs) in
        rw
          (
            le→leb 32 (length (body docs)) (omega (arith, length-body docs)),
            u32-at 0 (length docs) (omega arith) refl t.count,
            u32-at 4 (0 + count_indexed docs) (omega arith) refl counts-small.0,
            u64-at 8 (0 + sum_len docs) (omega arith) refl counts-small.1,
            u64-at 16 off (omega arith) refl (omega (arith, recs, t.count)),
            to_usize-eq off (omega (arith, recs, t.count)),
            u64-at 24 (length (heap docs)) (omega arith) refl (omega (arith, t.paths)),
            to_usize-eq (length (heap docs)) (omega (arith, t.paths)),
            eq→== off (16 + 32 + length docs * 48) start,
            eq→== _ _ end,
            le→leb (0 + count_indexed docs) (length docs) (omega (arith, count_indexed-le docs)),
            paths-at,
          )
          refl

-- Every table that the format can hold is encoded, and its file is parsed as a table with that many
-- documents, as many indexed ones, their lengths summed, and all paths in the heap.
pub parse-encode :
    (c : Crc32) (docs : List DocIn)
    → IsTable docs
    → (encode c docs ≡ ok (doc_file c docs)) × (parse (doc_file c docs) ≡ ok (view c docs))
unfolding encode parse
parse-encode c docs t =
    let small : Envelope.crc c (body docs) < 2 ^ 32 =
      unfold Envelope.crc in Crc32.hash-lt c (body docs) in
    let room : length (body docs) + 32 < 2 ^ 64 =
      omega (arith, length-body docs, t.count, t.paths) in
    (
      rw
          (encode_rounds-after nothing docs t.fits (omega (arith, t.paths)) (omega (arith, t.count))
            (omega (arith, t.count)))
          (unfold Envelope.seal in refl),
      rw (parse-file doc (body docs) _ small room, body_of-file doc (body docs) _ small room)
          (body-parsed docs t c),
    )
