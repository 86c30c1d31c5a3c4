-- ===== src/Tests/Manifest.antt =====
-- src/format/manifest.rs, on a manifest of two segments.
use ripindex.Common.{ℕ, ◌<◌, ◌^◌, ◌≡◌, refl, [], ◌∷◌, arith}
use ripindex.Format.{ok, pos}
use ripindex.Format.Ints.{nonnegative}
use ripindex.Format.Checksum.{sum32}
use ripindex.Format.Manifest.{SegmentEntry, Manifest, encode, decode, end_doc}
use ripindex.Format.Manifest.Entry.{FieldsFit}
use ripindex.Format.Manifest.Accepted.{IsAccepted, decode-IsAccepted, decode-Owns}
use ripindex.Format.Manifest.RoundTrip.{IsValid, decode-encode}

abbrev segment : ℕ → ℕ → ℕ → SegmentEntry
segment id base docs = record {
  segment_id = id;
  del_gen = 0;
  base_doc = base;
  num_docs = docs;
  num_deleted = 0;
  idx_crc = 11;
  doc_crc = 12;
  del_crc = 0;
  idx_len = 100;
  doc_len = 200;
  del_len = 0;
  num_tokens = 50;
  num_postings = 40;
  num_terms = 30;
}

abbrev two : Manifest
two = record {
  generation = 7;
  next_segment_id = 6;
  committed_unix_nanos = pos 1000;
  state_gen = 0;
  state_crc = 0;
  state_len = 0;
  segments = segment 3 0 10 ∷ segment 5 10 4 ∷ [];
}

segment_fits :
    (id base docs : ℕ)
    → id < 2 ^ 32
    → base < 2 ^ 32
    → docs < 2 ^ 32
    → FieldsFit (segment id base docs)
segment_fits id base docs hi hb hd = record {
  segment_id = hi;
  del_gen = omega arith;
  base_doc = hb;
  num_docs = hd;
  num_deleted = omega arith;
  idx_crc = omega arith;
  doc_crc = omega arith;
  del_crc = omega arith;
  idx_len = omega arith;
  doc_len = omega arith;
  del_len = omega arith;
  num_tokens = omega arith;
  num_postings = omega arith;
  num_terms = omega arith;
}

two-IsAccepted : IsAccepted two
unfolding end_doc
two-IsAccepted = record {
  state_agree = (λ e. e, λ e. e);
  chain = (
    record {
      id-lt = omega arith;
      after = tt;
      end-le = omega arith;
      del_agree = (λ e. e, λ e. e);
      deleted-le = omega arith;
    },
    (
      record {
        id-lt = omega arith;
        after = (omega arith, omega arith);
        end-le = omega arith;
        del_agree = (λ e. e, λ e. e);
        deleted-le = omega arith;
      },
      tt,
    ),
  );
}

two-IsValid : IsValid two
two-IsValid = record {
  generation = omega arith;
  next_segment_id = omega arith;
  nanos = nonnegative (omega arith);
  state_gen = omega arith;
  state_crc = omega arith;
  state_len = omega arith;
  segment_count = omega arith;
  entries_fit = (
    segment_fits 3 0 10 (omega arith) (omega arith) (omega arith),
    (segment_fits 5 10 4 (omega arith) (omega arith) (omega arith), tt),
  );
  accepted = two-IsAccepted;
}

decode-encode_example : decode sum32 (encode sum32 two) ≡ ok two
decode-encode_example = decode-encode sum32 two two-IsValid

decode-IsAccepted_example : IsAccepted two
decode-IsAccepted_example =
    decode-IsAccepted sum32 (encode sum32 two) two (decode-encode sum32 two two-IsValid)

decode-Owns_example : ◌≡◌ {A = ℕ} 1 1
unfolding end_doc
decode-Owns_example =
    decode-Owns sum32 (encode sum32 two) two 1 1 12 (segment 5 10 4) (segment 5 10 4)
      (decode-encode sum32 two two-IsValid) refl refl (omega arith, omega arith)
      (omega arith, omega arith)
