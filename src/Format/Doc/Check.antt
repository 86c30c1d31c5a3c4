-- ===== src/Format/Doc/Check.antt =====
-- src/format/doc.rs, `path` and `verify`, and the check of `std::str::from_utf8`.
use ripindex.Common.{
  ℕ, zero, suc, ◌+◌, ◌%◌, ◌^◌, Bool, false, not, ◌&&◌, Option, none, some, [], ◌∷◌, take, drop, leb,
  ◌==◌, if◌then◌else◌,
}
use ripindex.Format.{
  Bytes, Result, ok, err, ◌>>=◌, ◌>>◌, require, corrupt, record_out_of_range, bad_status,
  nonindexed_with_len, reserved_bytes_set, bad_path, counters_disagree,
}
use ripindex.Format.Checksum.{Crc32}
use ripindex.Format.Envelope
use ripindex.Format.Envelope.{bytes_eq}
use ripindex.Format.Doc.{
  DocRecord, DocTableView, status_indexed, max_status, record_at, record_of, path_bytes,
}

abbrev pub is_in : ℕ → ℕ → ℕ → Bool
is_in b lo hi = leb lo b && leb b hi

-- What may follow in UTF-8: how many bytes of a character are left, and the range of the next one.
pub record Expected : Type 0 where
  pub left : ℕ
  pub lo : ℕ
  pub hi : ℕ

abbrev pub start : Expected
start = record { left = 0; lo = 0x80; hi = 0xbf }

-- After the first byte of a character: no overlong forms, no surrogates, none above 10FFFF.
unfoldable pub lead : ℕ → Option Expected
lead b =
    if leb b 0x7f
    then some start
    else if is_in b 0xc2 0xdf
    then some (record { left = 1; lo = 0x80; hi = 0xbf })
    else if b == 0xe0
    then some (record { left = 2; lo = 0xa0; hi = 0xbf })
    else if b == 0xed
    then some (record { left = 2; lo = 0x80; hi = 0x9f })
    else if is_in b 0xe1 0xef
    then some (record { left = 2; lo = 0x80; hi = 0xbf })
    else if b == 0xf0
    then some (record { left = 3; lo = 0x90; hi = 0xbf })
    else if is_in b 0xf1 0xf3
    then some (record { left = 3; lo = 0x80; hi = 0xbf })
    else if b == 0xf4
    then some (record { left = 3; lo = 0x80; hi = 0x8f })
    else none

unfoldable pub next : Expected → ℕ → Option Expected
unfolding lead
next e b = elim e.left [
  | zero ↦ lead b
  | suc n ↦ if is_in b e.lo e.hi then some (record { left = n; lo = 0x80; hi = 0xbf }) else none
]

unfoldable pub utf8_from : Expected → Bytes → Bool
unfolding next
utf8_from e [] = e.left == 0
utf8_from e (b ∷ bs) = elim (next e b) [ none ↦ false | some e' ↦ utf8_from e' bs ]

unfoldable pub is_utf8 : Bytes → Bool
unfolding utf8_from
is_utf8 bs = utf8_from start bs

-- `std::str::from_utf8(s).ok()`
unfoldable pub from_utf8 : Option Bytes → Option Bytes
unfolding is_utf8
from_utf8 none = none
from_utf8 (some s) = if is_utf8 s then some s else none

unfoldable pub path_of : DocTableView → Option DocRecord → Option Bytes
unfolding path_bytes from_utf8
path_of v none = none
path_of v (some r) = from_utf8 (path_bytes v r)

-- `DocTableView::path`
unfoldable pub path : DocTableView → ℕ → Option Bytes
unfolding record_of path_of
path v i = path_of v (record_of v i)

abbrev pub or_corrupt {ℓ} : {A : Type ℓ} → Option A → Result A
or_corrupt (some a) = ok a
or_corrupt none = err (corrupt record_out_of_range)

abbrev pub path_found : ℕ → Option Bytes → Result (Unit {0})
path_found i none = err (corrupt (bad_path i))
path_found i (some s) = ok tt

-- The checks of one record.
unfoldable pub verify_record : DocTableView → ℕ → DocRecord → Result (Unit {0})
unfolding path
verify_record v i r = do
  require (leb r.status max_status) (corrupt (bad_status i r.status))
  require (not (not (r.status == status_indexed) && not (r.len == 0)))
      (corrupt (nonindexed_with_len i r.len))
  require (bytes_eq (take 3 (drop (record_at i + 37) v.bytes)) (0 ∷ 0 ∷ 0 ∷ []))
      (corrupt (reserved_bytes_set i))
  path_found i (path v i)

-- The loop over the records that are left, with the counters.
unfoldable pub verify_rounds : DocTableView → ℕ → ℕ → ℕ → ℕ → Result (ℕ × ℕ)
unfolding verify_record
verify_rounds v zero i num total = ok (num, total)
verify_rounds v (suc left) i num total = do
  r ← or_corrupt (record_of v i)
  verify_record v i r
  let here = r.status == status_indexed
  verify_rounds v left (i + 1) (if here then (num + 1) % 2 ^ 32 else num)
      (if here then (total + r.len) % 2 ^ 64 else total)

-- `DocTableView::verify`
unfoldable pub verify : Crc32 → DocTableView → Result (Unit {0})
unfolding verify_rounds
verify c v = do
  Envelope.verify_crc c v.bytes v.env
  (num, total) ← verify_rounds v v.num_docs 0 0 0
  require ((num == v.num_indexed) && (total == v.total_len)) (corrupt counters_disagree)
