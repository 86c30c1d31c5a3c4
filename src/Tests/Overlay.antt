-- ===== src/Tests/Overlay.antt =====
-- src/format/overlay.rs, on an overlay of two patches.
use ripindex.Common.{◌≡◌, refl, some, [], ◌∷◌, ◌++◌}
use ripindex.Format.{
  Bytes, pos, negsuc, ok, to_le_bytes, i64_bits, bits_i64, read_u32_le, read_u64_le, read_i64_le,
  slice, from_le_bytes, to_usize,
}
use ripindex.Format.Checksum.{sum32, byte_sum}
use ripindex.Format.Envelope
use ripindex.Format.Envelope.{bytes_eq, crc, seal, header, footer, overlay}
use ripindex.Format.Overlay.{
  PatchIn, Patch, OverlayView, encode, encode_patch, patch, path_of, parse_verified, find,
}
use ripindex.Format.Overlay.Search.{find-patch}

abbrev renamed : PatchIn
renamed = record { doc_id = 1; inode = 10; mtime_nanos = pos 100; size = 5; path = 0x61 ∷ [] }

abbrev touched : PatchIn
touched = record { doc_id = 5; inode = 50; mtime_nanos = negsuc 0; size = 0; path = [] }

abbrev overlay_file : Bytes
overlay_file = seal sum32 overlay (
    to_le_bytes 4 2
    ++ to_le_bytes 4 0
    ++ to_le_bytes 8 112
    ++ to_le_bytes 8 1
    ++ encode_patch 0 renamed
    ++ encode_patch 1 touched
    ++ 0x61 ∷ [])

abbrev overlay_view : OverlayView
overlay_view = record {
  bytes = overlay_file;
  env = record {
    body_start = 16;
    body_end = 113;
    stored = crc sum32 (
        to_le_bytes 4 2
        ++ to_le_bytes 4 0
        ++ to_le_bytes 8 112
        ++ to_le_bytes 8 1
        ++ encode_patch 0 renamed
        ++ encode_patch 1 touched
        ++ 0x61 ∷ []);
  };
  num_patches = 2;
  paths = 0x61 ∷ [];
}

abbrev second_patch : Patch
second_patch = record {
  doc_id = 5;
  inode = 50;
  mtime_nanos = negsuc 0;
  size = 0;
  path_off = 1;
  path_len = 0;
}

encode-overlay_file : encode sum32 (renamed ∷ touched ∷ []) ≡ ok overlay_file
unfolding encode seal encode_patch to_le_bytes header footer
encode-overlay_file = refl

overlay_file-accepted : parse_verified sum32 overlay_file ≡ ok overlay_view
unfolding parse_verified seal encode_patch to_le_bytes header footer crc byte_sum
    Envelope.parse_verified i64_bits Envelope.parse bytes_eq read_u32_le slice from_le_bytes
    read_u64_le to_usize read_i64_le
overlay_file-accepted = refl

second_patch-at : patch overlay_view 1 ≡ some second_patch
unfolding patch seal encode_patch to_le_bytes header footer crc byte_sum read_u32_le slice
    read_u64_le read_i64_le from_le_bytes bits_i64 i64_bits
second_patch-at = refl

find-second : find overlay_view 5 ≡ some (second_patch, [])
unfolding find seal encode_patch to_le_bytes header footer crc byte_sum read_u32_le slice
    read_u64_le read_i64_le from_le_bytes bits_i64 i64_bits
find-second = refl

find-patch_example :
    (s : Bytes) × (path_of overlay_view second_patch ≡ some s)
    × (find overlay_view 5 ≡ some (second_patch, s))
find-patch_example =
    find-patch sum32 overlay_file overlay_view 1 second_patch overlay_file-accepted second_patch-at
