-- ===== src/Tests/Idx.antt =====
-- src/format/idx.rs, on a list of two postings.
use ripindex.Common.{◌≡◌, refl, List, [], ◌∷◌, length, ◌==◌, if◌then◌else◌, arith}
use ripindex.Format.{Bytes, ok, err, corrupt, doc_count_disagrees}
use ripindex.Format.Varint.{put_u32, put_u64, put_loop}
use ripindex.Format.Idx.Postings.{Posting, encode_postings, delta}
use ripindex.Format.Idx.Layout.{
  position_bytes, header_bytes, posting_bytes, list_bytes, IsPostingList,
}
use ripindex.Format.Idx.Encodes.{total}
use ripindex.Format.Idx.Cursor.{new, seek}
use ripindex.Format.Idx.Yields.{Yields, encode_postings-Yields}
use ripindex.Format.Idx.Seek.{seek-Yields}
use ripindex.Format.Idx.List.{verify}
use ripindex.Format.Idx.Source.{verify-list_bytes}
use ripindex.Index.Postings.{skip}

abbrev two : List Posting
two = (3, 1 ∷ 4 ∷ []) ∷ (300, 2 ∷ []) ∷ []

abbrev two_bytes : Bytes
two_bytes = 2 ∷ 3 ∷ 2 ∷ 2 ∷ 1 ∷ 3 ∷ 169 ∷ 2 ∷ 1 ∷ 1 ∷ 2 ∷ []

two_bytes-eq : list_bytes two ≡ two_bytes
unfolding list_bytes posting_bytes header_bytes position_bytes delta put_u32 put_u64 put_loop
two_bytes-eq = refl

two-IsPostingList : IsPostingList two
unfolding list_bytes posting_bytes header_bytes position_bytes delta put_u32 put_u64 put_loop
two-IsPostingList = record {
  count-lt = omega arith;
  sound = (
    tt,
    omega arith,
    omega arith,
    omega arith,
    omega arith,
    (tt, omega arith, (omega arith, omega arith, tt)),
    (omega arith, omega arith, omega arith, omega arith, omega arith, (tt, omega arith, tt), tt),
  );
  fits = omega arith;
}

encode_postings-Yields_example :
    (bytes : Bytes) × (encode_postings two [] ≡ ok (bytes, total two)) × Yields (new bytes) two
encode_postings-Yields_example = encode_postings-Yields two two-IsPostingList

seek-Yields_example :
    Yields (seek (new (list_bytes two)) 4) (skip 4 two)
    × Yields (seek (seek (new (list_bytes two)) 4) 301) (skip 301 (skip 4 two))
seek-Yields_example = seek-Yields two 4 301 two-IsPostingList

verify-list_bytes_example :
    verify (record { bytes = list_bytes two; doc_freq = 3 })
    ≡ (if length two == 3 then ok tt else err (corrupt doc_count_disagrees))
verify-list_bytes_example = verify-list_bytes two 3 two-IsPostingList
