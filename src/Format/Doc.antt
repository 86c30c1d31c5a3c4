-- ===== src/Format/Doc.antt =====
-- src/format/doc.rs: the documents table of a segment, fixed records and a heap of paths. A path is
-- its bytes; an index outside a slice panics in the program: `none` in the model.
pub mod Check
pub mod Layout
pub mod Record
pub mod RoundTrip
pub mod Find
pub mod Verified
pub mod Verdict
pub mod Total
use ripindex.Common.{
  ℕ, zero, suc, ◌+◌, ◌-◌, ◌*◌, ◌%◌, ◌^◌, Bool, true, false, not, ◌&&◌, Option, none, some, List, [],
  ◌∷◌, ◌++◌, length, get_elem?, take, drop, ltb, leb, ◌==◌, if◌then◌else◌,
}
use ripindex.Format.{
  Bytes, ℤ, Result, ok, err, ◌>>=◌, ◌>>◌, require, truncated, corrupt, invariant, to_option,
  doc_regions_not_tiling, num_indexed_exceeds_num_docs, path_heap_too_large, nonindexed_with_length,
  record_out_of_range, bad_status, nonindexed_with_len, reserved_bytes_set, bad_path,
  counters_disagree, to_le_bytes, i64_bits, read_u32_le, read_u64_le, read_i64_le, slice, to_usize,
}
use ripindex.Format.Checksum.{Crc32}
use ripindex.Format.Envelope
use ripindex.Format.Envelope.{bytes_eq}

abbrev pub body_header_len : ℕ
body_header_len = 32

abbrev pub record_len : ℕ
record_len = 48

abbrev pub status_indexed : ℕ
status_indexed = 1

abbrev pub max_status : ℕ
max_status = 3

pub data DocKind : Type 0 where
  skipped indexed binary too_large : DocKind

unfoldable pub byte : DocKind → ℕ
byte skipped = 0
byte indexed = 1
byte binary = 2
byte too_large = 3

unfoldable pub from_byte : ℕ → Option DocKind
from_byte zero = some skipped
from_byte (suc zero) = some indexed
from_byte (suc (suc zero)) = some binary
from_byte (suc (suc (suc zero))) = some too_large
from_byte (suc (suc (suc (suc n)))) = none

unfoldable pub is_indexed : DocKind → Bool
is_indexed indexed = true
is_indexed _ = false

pub record DocIn : Type 0 where
  pub path : Bytes
  pub inode : ℕ
  pub mtime_nanos : ℤ
  pub size : ℕ
  pub len : ℕ
  pub kind : DocKind
  pub content_hash : ℕ

-- The record of a document whose path stands at `path_off` in the heap.
unfoldable pub encode_doc : ℕ → DocIn → Bytes
unfolding byte
encode_doc path_off d =
    to_le_bytes 8 d.inode
    ++ (to_le_bytes 8 (i64_bits d.mtime_nanos)
        ++ (to_le_bytes 8 d.size
            ++ (to_le_bytes 4 d.len
                ++ (to_le_bytes 4 path_off
                    ++ (to_le_bytes 4 (length d.path)
                        ++ (byte d.kind ∷ 0 ∷ 0 ∷ 0 ∷ to_le_bytes 8 d.content_hash))))))

-- What the loop of `encode` has written and counted.
pub record Written : Type 0 where
  pub records : Bytes
  pub paths : Bytes
  pub num_indexed : ℕ
  pub total_len : ℕ

-- One round after its checks; the counters have 32 and 64 bits.
unfoldable pub add_doc : Written → DocIn → Written
unfolding encode_doc is_indexed
add_doc w d = record {
  records = w.records ++ encode_doc (length w.paths) d;
  paths = w.paths ++ d.path;
  num_indexed = if is_indexed d.kind then (w.num_indexed + 1) % 2 ^ 32 else w.num_indexed;
  total_len = if is_indexed d.kind then (w.total_len + d.len) % 2 ^ 64 else w.total_len;
}

unfoldable pub encode_rounds : List DocIn → Written → Result Written
unfolding add_doc is_indexed
encode_rounds [] w = ok w
encode_rounds (d ∷ ds) w = do
  require (ltb (length d.path) (2 ^ 32) && ltb (length w.paths + length d.path) (2 ^ 32))
      (invariant path_heap_too_large)
  require (not (not (is_indexed d.kind) && not (d.len == 0))) (invariant nonindexed_with_length)
  encode_rounds ds (add_doc w d)

-- The body of `n` documents, its header written last.
unfoldable pub table_body : ℕ → Written → Bytes
table_body n w =
    to_le_bytes 4 n
    ++ (to_le_bytes 4 w.num_indexed
        ++ (to_le_bytes 8 w.total_len
            ++ (to_le_bytes 8 (Envelope.header_len + (body_header_len + length w.records))
                ++ (to_le_bytes 8 (length w.paths) ++ (w.records ++ w.paths)))))

unfoldable pub encode : Crc32 → List DocIn → Result Bytes
unfolding encode_rounds table_body
encode c docs = do
  w ← encode_rounds docs (record { records = []; paths = []; num_indexed = 0; total_len = 0 })
  ok (Envelope.seal c Envelope.doc (table_body (length docs) w))

pub record DocRecord : Type 0 where
  pub inode : ℕ
  pub mtime_nanos : ℤ
  pub size : ℕ
  pub len : ℕ
  pub status : ℕ
  pub content_hash : ℕ
  pub path_off : ℕ
  pub path_len : ℕ

pub record DocTableView : Type 0 where
  pub bytes : Bytes
  pub env : Envelope.Envelope
  pub num_docs : ℕ
  pub num_indexed : ℕ
  pub total_len : ℕ
  pub paths : Bytes

unfoldable pub parse_body : Bytes → Envelope.Envelope → Bytes → Result DocTableView
parse_body bytes env body = do
  require (leb body_header_len (length body)) (truncated (length body) body_header_len)
  num_docs ← read_u32_le body 0
  num_indexed ← read_u32_le body 4
  total_len ← read_u64_le body 8
  off ← read_u64_le body 16
  paths_off ← to_usize off
  size ← read_u64_le body 24
  paths_len ← to_usize size
  let records_end = Envelope.header_len + body_header_len + num_docs * record_len
  require ((paths_off == records_end) && ((paths_off + paths_len) % 2 ^ 64 == env.body_end))
      (corrupt doc_regions_not_tiling)
  require (leb num_indexed num_docs) (corrupt num_indexed_exceeds_num_docs)
  paths ← slice bytes paths_off paths_len
  ok (record {
    bytes = bytes;
    env = env;
    num_docs = num_docs;
    num_indexed = num_indexed;
    total_len = total_len;
    paths = paths;
  })

unfoldable pub parse : Bytes → Result DocTableView
unfolding parse_body
parse bytes = do
  env ← Envelope.parse Envelope.doc bytes
  parse_body bytes env (Envelope.body_of bytes env)

abbrev pub record_at : ℕ → ℕ
record_at i = Envelope.header_len + body_header_len + i * record_len

-- The reads of `record`, from `at` on.
unfoldable pub read_fields : Bytes → ℕ → ℕ → Result DocRecord
read_fields b at status = do
  inode ← read_u64_le b at
  mtime_nanos ← read_i64_le b (at + 8)
  size ← read_u64_le b (at + 16)
  len ← read_u32_le b (at + 24)
  path_off ← read_u32_le b (at + 28)
  path_len ← read_u32_le b (at + 32)
  content_hash ← read_u64_le b (at + 40)
  ok (record {
    inode = inode;
    mtime_nanos = mtime_nanos;
    size = size;
    len = len;
    status = status;
    content_hash = content_hash;
    path_off = path_off;
    path_len = path_len;
  })

-- The byte `b[at + 36]` is looked at first here; the reads have no effects. Out of range the code
-- panics, where this has none: a record of a parsed table never is (Format/Doc/Total.antt).
unfoldable pub with_status : Bytes → ℕ → Option ℕ → Option DocRecord
unfolding read_fields
with_status b at none = none
with_status b at (some status) = to_option (read_fields b at status)

unfoldable pub read_record : Bytes → ℕ → Option DocRecord
unfolding with_status
read_record b at = with_status b at (get_elem? b (at + 36))

-- `DocTableView::record`
unfoldable pub record_of : DocTableView → ℕ → Option DocRecord
unfolding read_record
record_of v i = if leb v.num_docs i then none else read_record v.bytes (record_at i)

-- The bytes of the path, before they are checked to be UTF-8.
unfoldable pub path_bytes : DocTableView → DocRecord → Option Bytes
path_bytes v r =
    if ltb (r.path_off + r.path_len) (2 ^ 64)
    then (if leb (r.path_off + r.path_len) (length v.paths)
        then some (take r.path_len (drop r.path_off v.paths))
        else none)
    else none

unfoldable pub len_if_indexed : Bytes → ℕ → Option ℕ → Option ℕ
len_if_indexed b at none = none
len_if_indexed b at (some status) =
    if status == status_indexed then to_option (read_u32_le b (at + 24)) else none

unfoldable pub doc_len_if_indexed : DocTableView → ℕ → Option ℕ
unfolding len_if_indexed
doc_len_if_indexed v i =
    if leb v.num_docs i
    then none
    else len_if_indexed v.bytes (record_at i) (get_elem? v.bytes (record_at i + 36))
