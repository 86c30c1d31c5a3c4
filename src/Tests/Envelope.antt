-- ===== src/Tests/Envelope.antt =====
-- src/format/envelope.rs, on a file of three bytes.
use ripindex.Common.{◌≡◌, refl, Bool, true, List, [], ◌∷◌, ◌++◌, ◌&&◌, arith, All, ltb}
use ripindex.Format.{Bytes, IsByte, ok, to_le_bytes}
use ripindex.Format.Checksum.{sum32, byte_sum}
use ripindex.Format.Envelope.{
  idx, header, footer, crc, seal, body_of, parse_verified, new_writer, finish,
}
use ripindex.Format.Envelope.RoundTrip.{envelope, parse_verified-seal, finish-seal, write_all}
use ripindex.Format.Envelope.Exact.{parse_verified_exact}

abbrev pub all_bytes : Bytes → Bool
all_bytes [] = true
all_bytes (b ∷ bs) = ltb b 256 && all_bytes bs

pub all_bytes-All : (bs : Bytes) → all_bytes bs ≡ true → All IsByte bs
all_bytes-All [] h = tt
all_bytes-All (b ∷ bs) h = (ground arith, all_bytes-All bs (ground arith))

abbrev body : Bytes
body = 1 ∷ 2 ∷ 3 ∷ []

parse_verified-seal_example :
    (parse_verified sum32 idx (seal sum32 idx body) ≡ ok (envelope 3 (crc sum32 body)))
    × (body_of (seal sum32 idx body) (envelope 3 (crc sum32 body)) ≡ body)
parse_verified-seal_example = parse_verified-seal sum32 idx body (omega arith)

body-IsByte : All IsByte (seal sum32 idx body)
unfolding seal header footer crc to_le_bytes byte_sum
body-IsByte = all_bytes-All (seal sum32 idx body) refl

parse_verified_exact_example :
    seal sum32 idx body
    ≡ seal sum32 idx (body_of (seal sum32 idx body) (envelope 3 (crc sum32 body)))
parse_verified_exact_example =
    parse_verified_exact sum32 idx (seal sum32 idx body) (envelope 3 (crc sum32 body)) body-IsByte
      (parse_verified-seal sum32 idx body (omega arith)).0

abbrev pieces : List Bytes
pieces = (1 ∷ []) ∷ (2 ∷ 3 ∷ []) ∷ []

finish-seal_example :
    (finish sum32 (write_all sum32 (new_writer sum32 (header idx)) pieces)).0
      ++ footer
          (finish sum32 (write_all sum32 (new_writer sum32 (header idx)) pieces)).1
          (finish sum32 (write_all sum32 (new_writer sum32 (header idx)) pieces)).2
    ≡ seal sum32 idx body
finish-seal_example = finish-seal sum32 idx pieces (omega arith)
