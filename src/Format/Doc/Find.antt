-- ===== src/Format/Doc/Find.antt =====
-- src/format/doc.rs, `record`, `path` and `doc_len_if_indexed` on the file of a table.
use ripindex.Common.{
  ℕ, zero, suc, ◌+◌, ◌*◌, ◌^◌, ◌≤◌, ◌<◌, ◌≡◌, refl, sym, ap, ◌∙◌, false, none, some, List, [], ◌∷◌,
  ◌++◌, length, get_elem?, take, drop, arith, All, append_assoc, length-append, take-append,
  drop-append, le→leb, lt→ltb, leb, if◌then◌else◌,
}
use mathlib.Core.Path.{subst}
use ripindex.Format.{Bytes, ok, read_u32_le, to_le_bytes}
use ripindex.Format.Slice.{Fits}
use ripindex.Format.Checksum.{Crc32}
use ripindex.Format.Doc.{
  DocIn, DocKind, skipped, indexed, binary, too_large, is_indexed, encode_doc, byte, record_of,
  path_bytes, len_if_indexed, doc_len_if_indexed,
}
use ripindex.Format.Doc.Check.{from_utf8, path_of, path}
use ripindex.Format.Doc.Layout.{FieldsFit, IsTable, heap, records_of}
use ripindex.Format.Doc.Record.{
  record_for, read_record-encode_doc, status-encode_doc, len-encode_doc, reserved-encode_doc,
}
use ripindex.Format.Doc.RoundTrip.{
  front, length-front, tail, doc_file, doc_file-eq, view, doc_file-Fits,
}

-- The record of `d` stands at `at` in the buffer.
pub record Placed (buf : Bytes) (at off : ℕ) (d : DocIn) : Type 0 where
  pub before : Bytes
  pub behind : Bytes
  pub whole : buf ≡ before ++ (encode_doc off d ++ behind)
  pub place : length before ≡ at

-- Where the path of the `i`-th document stands in the heap.
abbrev pub path_at : List DocIn → ℕ → ℕ
path_at docs i = length (heap (take i docs))

some-injective : {A : Type 0} {a b : A} → some a ≡ some b → a ≡ b
some-injective e = cc

place_at :
    (pre rest : Bytes) (off : ℕ) (docs : List DocIn) (i : ℕ) (d : DocIn)
    → get_elem? docs i ≡ some d
    → Placed (pre ++ (records_of off docs ++ rest)) (length pre + i * 48) (off + path_at docs i) d
place_at pre rest off [] i d h = cc
place_at pre rest off (e ∷ docs) zero d h = record {
  before = pre;
  behind = records_of (off + length e.path) docs ++ rest;
  whole =
      let same : e ≡ d = some-injective h in
      let start : off + 0 ≡ off = omega arith in
      rw (start, ← same)
        (ap (λ more. pre ++ more)
          (append_assoc (encode_doc off e) (records_of (off + length e.path) docs) rest));
  place = omega arith;
}
place_at pre rest off (e ∷ docs) (suc i) d h =
    let later = place_at (pre ++ encode_doc off e) rest (off + length e.path) docs i d h in
    let here : length (encode_doc off e) ≡ 48 = one_record off e in
    let further : off + length e.path + path_at docs i ≡ off + path_at (e ∷ docs) (suc i) =
      omega (arith, length-append e.path (heap (take i docs))) in
    record {
      before = later.before;
      behind = later.behind;
      whole = rw (← further) (
          ap (λ more. pre ++ more)
            (append_assoc (encode_doc off e) (records_of (off + length e.path) docs) rest)
          ∙ sym
              (append_assoc pre (encode_doc off e) (records_of (off + length e.path) docs ++ rest))
          ∙ later.whole);
      place = omega (arith, later.place, length-append pre (encode_doc off e), here);
    }
  where
    one_record : (off : ℕ) (e : DocIn) → length (encode_doc off e) ≡ 48
    one_record off e = unfold encode_doc in unfold to_le_bytes in refl

heap-split :
    (docs : List DocIn) (i : ℕ) (d : DocIn)
    → get_elem? docs i ≡ some d
    → (rest : Bytes) × (heap docs ≡ heap (take i docs) ++ (d.path ++ rest))
heap-split [] i d h = cc
heap-split (e ∷ docs) zero d h = (heap docs, ap (λ k. k.path ++ heap docs) (some-injective h))
heap-split (e ∷ docs) (suc i) d h =
    let (rest, same) = heap-split docs i d h in
    (
      rest,
      ap (λ more. e.path ++ more) same
          ∙ sym (append_assoc e.path (heap (take i docs)) (d.path ++ rest)),
    )

pub All-at {κ} :
    (P : DocIn → Type κ) (docs : List DocIn) (i : ℕ) (d : DocIn)
    → All P docs
    → get_elem? docs i ≡ some d
    → P d
All-at P [] i d a h = cc
All-at P (e ∷ docs) zero d a h = subst P (some-injective h) a.0
All-at P (e ∷ docs) (suc i) d a h = All-at P docs i d a.1 h

pub in_range : (docs : List DocIn) (i : ℕ) (d : DocIn) → get_elem? docs i ≡ some d → i < length docs
in_range [] i d h = cc
in_range (e ∷ docs) zero d h = omega arith
in_range (e ∷ docs) (suc i) d h = omega (arith, in_range docs i d h)

-- A view gives a document of its table, wherever it stands.
module _ (c : Crc32) (docs : List DocIn) (i : ℕ) (d : DocIn) (t : IsTable docs)
    (h : get_elem? docs i ≡ some d) where
  pub fit-at : FieldsFit d
  fit-at = All-at FieldsFit docs i d t.fits h

  here : Placed (doc_file c docs) (48 + i * 48) (path_at docs i) d
  here =
      let start : 0 + path_at docs i ≡ path_at docs i = omega arith in
      let at : length (front docs) + i * 48 ≡ 48 + i * 48 = omega (arith, length-front docs) in
      rw (doc_file-eq c docs)
        (rw start at (rw at at (place_at (front docs) (tail c docs) 0 docs i d h)))

  file-eq : doc_file c docs ≡ here.before ++ (encode_doc (path_at docs i) d ++ here.behind)
  file-eq = here.whole

  place-eq : length here.before ≡ 48 + i * 48
  place-eq = here.place

  parts-Fits : Fits (here.before ++ (encode_doc (path_at docs i) d ++ here.behind))
  parts-Fits = rw (← file-eq) (doc_file-Fits docs t c)

  path-room : path_at docs i + length d.path ≤ length (heap docs)
  path-room =
      let (rest, same) = heap-split docs i d h in
      rw same (
        omega
          (arith, length-append (heap (take i docs)) (d.path ++ rest), length-append d.path rest))

  path-cut : take (length d.path) (drop (path_at docs i) (heap docs)) ≡ d.path
  path-cut =
      let (rest, same) = heap-split docs i d h in rw same (rw (drop-append, take-append) refl)

  inside : leb (length docs) i ≡ false
  inside = ground (arith, in_range docs i d h)

  record_of-at : record_of (view c docs) i ≡ some (record_for (path_at docs i) d)
  unfolding record_of
  record_of-at =
      rw (inside, file-eq, ← place-eq)
        (read_record-encode_doc here.before here.behind (path_at docs i) d fit-at
          (omega (arith, path-room, t.paths)) (omega (arith, path-room, t.paths)) parts-Fits)

  path_bytes-at : path_bytes (view c docs) (record_for (path_at docs i) d) ≡ some d.path
  unfolding path_bytes
  path_bytes-at =
      rw
        (
          lt→ltb (path_at docs i + length d.path) (2 ^ 64) (omega (arith, path-room, t.paths)),
          le→leb (path_at docs i + length d.path) (length (heap docs)) path-room,
          path-cut,
        )
        refl

  path-at : path (view c docs) i ≡ some d.path
  unfolding path path_of from_utf8
  path-at =
      ap (path_of (view c docs)) record_of-at ∙ ap from_utf8 path_bytes-at ∙ rw fit-at.text refl

  status-at : get_elem? (doc_file c docs) (48 + i * 48 + 36) ≡ some (byte d.kind)
  status-at =
      rw (file-eq, ← place-eq)
        (status-encode_doc here.before here.behind (path_at docs i) d fit-at
          (omega (arith, path-room, t.paths)) (omega (arith, path-room, t.paths)) parts-Fits)

  len-at : read_u32_le (doc_file c docs) (48 + i * 48 + 24) ≡ ok d.len
  len-at =
      rw (file-eq, ← place-eq)
        (len-encode_doc here.before here.behind (path_at docs i) d fit-at
          (omega (arith, path-room, t.paths)) (omega (arith, path-room, t.paths)) parts-Fits)

  doc_len-at : doc_len_if_indexed (view c docs) i ≡ (if is_indexed d.kind then some d.len else none)
  unfolding doc_len_if_indexed len_if_indexed is_indexed byte
  doc_len-at = rw inside (ap (len_if_indexed (doc_file c docs) (48 + i * 48)) status-at ∙ go d.kind)
    where
      go :
          (k : DocKind)
          → len_if_indexed (doc_file c docs) (48 + i * 48) (some (byte k))
            ≡ (if is_indexed k then some d.len else none)
      go skipped = refl
      go indexed = rw len-at refl
      go binary = refl
      go too_large = refl

pub reserved-at :
    (c : Crc32) (docs : List DocIn) (i : ℕ) (d : DocIn)
    → IsTable docs
    → get_elem? docs i ≡ some d
    → take 3 (drop (48 + i * 48 + 37) (doc_file c docs)) ≡ 0 ∷ 0 ∷ 0 ∷ []
reserved-at c docs i d t h =
    let p = here c docs i d t h in
    let room = path-room c docs i d t h in
    rw (p.whole, ← p.place)
      (reserved-encode_doc p.before p.behind (path_at docs i) d (fit-at c docs i d t h)
        (omega (arith, room, t.paths)) (omega (arith, room, t.paths)) (parts-Fits c docs i d t h))

-- In the file of a table, the `i`-th record is that of the `i`-th document, with its status and the
-- place of its path; the path is found there, and the length that ranking reads is the document's
-- if it is indexed, and none otherwise.
pub record_of-view :
    (c : Crc32) (docs : List DocIn) (i : ℕ) (d : DocIn)
    → IsTable docs
    → get_elem? docs i ≡ some d
    → (record_of (view c docs) i ≡ some (record_for (path_at docs i) d))
      × (path (view c docs) i ≡ some d.path)
      × (doc_len_if_indexed (view c docs) i ≡ (if is_indexed d.kind then some d.len else none))
record_of-view c docs i d t h =
    (record_of-at c docs i d t h, path-at c docs i d t h, doc_len-at c docs i d t h)
