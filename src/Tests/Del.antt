-- ===== src/Tests/Del.antt =====
-- src/format/del.rs, on a bitmap of ten documents.
use ripindex.Common.{◌≡◌, refl, inl, inr, Bool, true, false, some, [], ◌∷◌, arith, All}
use ripindex.Format.{IsByte, ok, to_le_bytes}
use ripindex.Format.Checksum.{sum32, byte_sum}
use ripindex.Format.Envelope.{crc, seal, header, footer, magic}
use ripindex.Format.Del.{
  Bitmap, DelView, set_bit, count, encode, parse_verified, to_bitmap, with_bit, has_bit, popcount,
  ones, count_ones,
}
use ripindex.Format.Del.Set.{IsValid, SetResult, set_bit_lem}
use ripindex.Format.Envelope
use ripindex.Format.Del.RoundTrip.{del_body, parse_verified-encode, parse_verified-IsValid}
use ripindex.Tests.Envelope.{all_bytes-All}

abbrev ten : Bitmap
ten = record { bits = 4 ∷ 2 ∷ []; num_docs = 10 }

ten-IsValid : IsValid ten
ten-IsValid = record {
  num_docs-lt = omega arith;
  holds = (
    omega arith,
    omega arith,
    inl (omega arith),
    (omega arith, omega arith, inr (omega arith), refl),
  );
}

set_bit_lem_example : (b' : Bitmap) × (newly : Bool) × SetResult ten 3 b' newly
set_bit_lem_example = set_bit_lem ten 3 ten-IsValid

abbrev ten_view : DelView
ten_view = record {
  num_docs = ten.num_docs;
  num_deleted = count ten;
  bits = ten.bits;
  crc = Envelope.crc sum32 (del_body ten);
}

parse_verified-encode_example : parse_verified sum32 (encode sum32 ten) ≡ ok ten_view
parse_verified-encode_example = parse_verified-encode sum32 ten ten-IsValid

file-IsByte : All IsByte (encode sum32 ten)
unfolding encode seal header footer crc to_le_bytes byte_sum count popcount ones count_ones
file-IsByte = all_bytes-All (encode sum32 ten) refl

parse_verified-IsValid_example :
    IsValid (to_bitmap ten_view) × (count (to_bitmap ten_view) ≡ count ten)
parse_verified-IsValid_example =
    parse_verified-IsValid sum32 (encode sum32 ten) ten_view file-IsByte
      (parse_verified-encode sum32 ten ten-IsValid)

new_bit : set_bit ten 3 ≡ some (record { num_docs = 10; bits = 12 ∷ 2 ∷ [] }, true)
unfolding set_bit with_bit has_bit
new_bit = refl

old_bit : set_bit ten 2 ≡ some (ten, false)
unfolding set_bit with_bit has_bit
old_bit = refl
