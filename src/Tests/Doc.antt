-- ===== src/Tests/Doc.antt =====
-- src/format/doc.rs, on a table of two documents.
use ripindex.Common.{◌↔◌, ◌≡◌, refl, none, some, List, [], ◌∷◌, if◌then◌else◌, arith}
use ripindex.Format.{pos, negsuc, ok}
use ripindex.Format.Ints.{nonnegative, negative}
use ripindex.Format.Doc.{
  DocIn, skipped, indexed, is_indexed, encode, parse, record_of, doc_len_if_indexed,
}
use ripindex.Format.Doc.Check.{is_utf8, path, verify}
use ripindex.Format.Doc.Layout.{FieldsFit, IsTable}
use ripindex.Format.Doc.Record.{record_for}
use ripindex.Format.Doc.RoundTrip.{doc_file, view, parse-encode}
use ripindex.Format.Doc.Find.{path_at, record_of-view}
use ripindex.Format.Doc.Verified.{verify-view}
use ripindex.Format.Doc.Verdict.{IsVerified, verify_iff}
use ripindex.Format.Checksum.{sum32}

abbrev main_rs : DocIn
main_rs = record {
  path = 0x61 ∷ 0xc3 ∷ 0xa9 ∷ [];
  inode = 42;
  mtime_nanos = pos 17;
  size = 10;
  len = 7;
  kind = indexed;
  content_hash = 99;
}

abbrev bad_bin : DocIn
bad_bin = record {
  path = 0x62 ∷ [];
  inode = 0;
  mtime_nanos = negsuc 4;
  size = 3;
  len = 0;
  kind = skipped;
  content_hash = 5;
}

abbrev two_docs : List DocIn
two_docs = main_rs ∷ bad_bin ∷ []

main_rs-FieldsFit : FieldsFit main_rs
unfolding is_indexed is_utf8
main_rs-FieldsFit = record {
  inode = omega arith;
  nanos = nonnegative (omega arith);
  size = omega arith;
  len = omega arith;
  hash = omega arith;
  no_len = λ h. cc;
  text = refl;
}

bad_bin-FieldsFit : FieldsFit bad_bin
unfolding is_utf8
bad_bin-FieldsFit = record {
  inode = omega arith;
  nanos = negative (omega arith);
  size = omega arith;
  len = omega arith;
  hash = omega arith;
  no_len = λ h. refl;
  text = refl;
}

two_docs-IsTable : IsTable two_docs
two_docs-IsTable = record {
  fits = (main_rs-FieldsFit, (bad_bin-FieldsFit, tt));
  count = omega arith;
  paths = omega arith;
}

parse-encode_example :
    (encode sum32 two_docs ≡ ok (doc_file sum32 two_docs))
    × (parse (doc_file sum32 two_docs) ≡ ok (view sum32 two_docs))
parse-encode_example = parse-encode sum32 two_docs two_docs-IsTable

record_of-view_example :
    (record_of (view sum32 two_docs) 1 ≡ some (record_for (path_at two_docs 1) bad_bin))
    × (path (view sum32 two_docs) 1 ≡ some (0x62 ∷ []))
    × (doc_len_if_indexed (view sum32 two_docs) 1 ≡ (if is_indexed skipped then some 0 else none))
record_of-view_example = record_of-view sum32 two_docs 1 bad_bin two_docs-IsTable refl

verify_iff_example :
    (verify sum32 (view sum32 two_docs) ≡ ok tt) ↔ IsVerified sum32 (view sum32 two_docs)
verify_iff_example = verify_iff sum32 (view sum32 two_docs)

-- What the check passes, by the theorem.
two_docs-IsVerified : IsVerified sum32 (view sum32 two_docs)
two_docs-IsVerified =
    (verify_iff sum32 (view sum32 two_docs)).0 (verify-view sum32 two_docs two_docs-IsTable)

-- Overlong forms, surrogates and stray bytes are no UTF-8; a character of four bytes is.
utf8_tests :
    (is_utf8 (0xc0 ∷ 0x80 ∷ []) ≡ is_utf8 (0xed ∷ 0xa0 ∷ 0x80 ∷ []))
    × (is_utf8 (0x80 ∷ []) ≡ is_utf8 (0xe2 ∷ 0x82 ∷ []))
    × (is_utf8 (0xf0 ∷ 0x9f ∷ 0xa6 ∷ 0x80 ∷ []) ≡ is_utf8 [])
unfolding is_utf8
utf8_tests = (refl, refl, refl)
