-- ===== src/Format/Overlay.antt =====
-- src/format/overlay.rs: the overlay of patches to the documents whose content has not changed.
pub mod Search
pub mod Sound
use Prim.Native.Nat.{compare, Ordering}
use ripindex.Common.{
  ℕ, zero, suc, ◌+◌, ◌-◌, ◌*◌, ◌/◌, ◌%◌, ◌^◌, Bool, true, false, not, ◌&&◌, Option, none, some,
  List, [], ◌∷◌, ◌++◌, length, take, drop, ltb, leb, ◌==◌, if◌then◌else◌,
}
use ripindex.Format.{
  Bytes, ℤ, Result, ok, err, ◌>>=◌, ◌>>◌, require, truncated, corrupt, invariant, to_option,
  overlay_heap_too_large, overlay_not_tiling, patch_out_of_range, patches_not_sorted,
  patch_bad_path, to_le_bytes, i64_bits, read_u32_le, read_u64_le, read_i64_le, slice, to_usize,
}
use ripindex.Format.Checksum.{Crc32}
use ripindex.Format.Envelope
use ripindex.Format.Doc.Check.{from_utf8}

abbrev pub body_header_len : ℕ
body_header_len = 24

abbrev pub patch_len : ℕ
patch_len = 36

pub record PatchIn : Type 0 where
  pub doc_id : ℕ
  pub inode : ℕ
  pub mtime_nanos : ℤ
  pub size : ℕ
  pub path : Bytes

-- The record of a patch whose path stands at `path_off` in the heap.
unfoldable pub encode_patch : ℕ → PatchIn → Bytes
encode_patch path_off p =
    to_le_bytes 4 p.doc_id
    ++ (to_le_bytes 8 p.inode
        ++ (to_le_bytes 8 (i64_bits p.mtime_nanos)
            ++ (to_le_bytes 8 p.size ++ (to_le_bytes 4 path_off ++ to_le_bytes 4 (length p.path)))))

-- The loop of `encode`: the records and the paths so far.
unfoldable pub encode_rounds : List PatchIn → Bytes → Bytes → Result (Bytes × Bytes)
unfolding encode_patch
encode_rounds [] records paths = ok (records, paths)
encode_rounds (p ∷ ps) records paths = do
  require (ltb (length p.path) (2 ^ 32) && ltb (length paths + length p.path) (2 ^ 32))
      (invariant overlay_heap_too_large)
  encode_rounds ps (records ++ encode_patch (length paths) p) (paths ++ p.path)

unfoldable pub encode : Crc32 → List PatchIn → Result Bytes
unfolding encode_rounds
encode c patches = do
  (records, paths) ← encode_rounds patches [] []
  ok (
      Envelope.seal c Envelope.overlay (
        to_le_bytes 4 (length patches)
        ++ (to_le_bytes 4 0
            ++ (to_le_bytes 8 (Envelope.header_len + (body_header_len + length records))
                ++ (to_le_bytes 8 (length paths) ++ (records ++ paths))))))

pub record Patch : Type 0 where
  pub doc_id : ℕ
  pub inode : ℕ
  pub mtime_nanos : ℤ
  pub size : ℕ
  pub path_off : ℕ
  pub path_len : ℕ

pub record OverlayView : Type 0 where
  pub bytes : Bytes
  pub env : Envelope.Envelope
  pub num_patches : ℕ
  pub paths : Bytes

abbrev pub record_at : ℕ → ℕ
record_at i = Envelope.header_len + body_header_len + i * patch_len

unfoldable pub read_patch : Bytes → ℕ → Result Patch
read_patch b at = do
  doc_id ← read_u32_le b at
  inode ← read_u64_le b (at + 4)
  mtime_nanos ← read_i64_le b (at + 12)
  size ← read_u64_le b (at + 20)
  path_off ← read_u32_le b (at + 28)
  path_len ← read_u32_le b (at + 32)
  ok (record {
    doc_id = doc_id;
    inode = inode;
    mtime_nanos = mtime_nanos;
    size = size;
    path_off = path_off;
    path_len = path_len;
  })

unfoldable pub patch : OverlayView → ℕ → Option Patch
unfolding read_patch
patch v i = if leb v.num_patches i then none else to_option (read_patch v.bytes (record_at i))

unfoldable pub path_of : OverlayView → Patch → Option Bytes
unfolding from_utf8
path_of v p = from_utf8 (
    if ltb (p.path_off + p.path_len) (2 ^ 64)
    then (if leb (p.path_off + p.path_len) (length v.paths)
        then some (take p.path_len (drop p.path_off v.paths))
        else none)
    else none)

-- `if prev >= p.doc_id`
abbrev pub not_above : Option ℕ → ℕ → Bool
not_above none id = false
not_above (some pr) id = leb id pr

abbrev pub or_corrupt {ℓ} : {A : Type ℓ} → Option A → Result A → Result A
or_corrupt (some a) e = ok a
or_corrupt none e = e

-- The loop of `parse_verified` over the patches that are left.
unfoldable pub check_rounds : OverlayView → ℕ → ℕ → Option ℕ → Result (Unit {0})
unfolding patch path_of
check_rounds v zero i prev = ok tt
check_rounds v (suc left) i prev = do
  p ← or_corrupt (patch v i) (err (corrupt patch_out_of_range))
  require (not (not_above prev p.doc_id)) (corrupt patches_not_sorted)
  s ← or_corrupt (path_of v p) (err (corrupt patch_bad_path))
  check_rounds v left (i + 1) (some p.doc_id)

unfoldable pub parse_body : Bytes → Envelope.Envelope → Bytes → Result OverlayView
parse_body bytes env body = do
  require (leb body_header_len (length body)) (truncated (length body) body_header_len)
  num_patches ← read_u32_le body 0
  off ← read_u64_le body 8
  paths_off ← to_usize off
  size ← read_u64_le body 16
  paths_len ← to_usize size
  let records_end = Envelope.header_len + body_header_len + num_patches * patch_len
  require ((paths_off == records_end) && ((paths_off + paths_len) % 2 ^ 64 == env.body_end))
      (corrupt overlay_not_tiling)
  paths ← slice bytes paths_off paths_len
  ok (record { bytes = bytes; env = env; num_patches = num_patches; paths = paths })

unfoldable pub parse_verified : Crc32 → Bytes → Result OverlayView
unfolding parse_body check_rounds
parse_verified c bytes = do
  env ← Envelope.parse_verified c Envelope.overlay bytes
  v ← parse_body bytes env (Envelope.body_of bytes env)
  check_rounds v v.num_patches 0 none
  ok v

abbrev pub with_path : Patch → Option Bytes → Option (Patch × Bytes)
with_path p none = none
with_path p (some s) = some (p, s)

-- The `match` in `find`, with what the loop gives on the upper and on the lower half.
unfoldable pub found_at :
    OverlayView
    → Option (Patch × Bytes)
    → Option (Patch × Bytes)
    → Patch
    → Ordering
    → Option (Patch × Bytes)
unfolding path_of
found_at v upper lower p Ordering.lt = upper
found_at v upper lower p Ordering.gt = lower
found_at v upper lower p Ordering.eq = with_path p (path_of v p)

unfoldable pub at_mid :
    OverlayView
    → ℕ
    → Option (Patch × Bytes)
    → Option (Patch × Bytes)
    → Option Patch
    → Option (Patch × Bytes)
unfolding found_at
at_mid v doc_id upper lower none = none
at_mid v doc_id upper lower (some p) = found_at v upper lower p (compare p.doc_id doc_id)

-- The loop of `find`; the range at least halves, and has no more than the patches at first.
unfoldable pub find_loop : ℕ → OverlayView → ℕ → ℕ → ℕ → Option (Patch × Bytes)
unfolding patch at_mid
find_loop zero v doc_id lo hi = none
find_loop (suc f) v doc_id lo hi =
    let mid = lo + (hi - lo) / 2 in
    let upper = find_loop f v doc_id (mid + 1) hi in
    let lower = find_loop f v doc_id lo mid in
    if ltb lo hi then at_mid v doc_id upper lower (patch v mid) else none

unfoldable pub find : OverlayView → ℕ → Option (Patch × Bytes)
unfolding find_loop
find v doc_id = find_loop v.num_patches v doc_id 0 v.num_patches

-- `iter`, over the patches that are left from the `i`-th on.
unfoldable pub iter_from : ℕ → OverlayView → ℕ → List (Patch × Bytes)
unfolding patch path_of
iter_from zero v i = []
iter_from (suc left) v i =
    let rest = iter_from left v (i + 1) in
    elim (patch v i) [
      | none ↦ rest
      | some p ↦ elim (path_of v p) [ none ↦ rest | some s ↦ (p, s) ∷ rest ]
    ]

unfoldable pub iter : OverlayView → List (Patch × Bytes)
unfolding iter_from
iter v = iter_from v.num_patches v 0
