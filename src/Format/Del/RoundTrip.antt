-- ===== src/Format/Del/RoundTrip.antt =====
-- src/format/del.rs: a well-formed bitmap survives its file, and only such bitmaps are accepted.
use ripindex.Common.{
  inl, ℕ, ◌+◌, ◌-◌, ◌/◌, ◌%◌, ◌^◌, ◌≤◌, ◌<◌, ◌≡◌, ◌≢◌, ◌↔◌, refl, sym, false, [], ◌∷◌, ◌++◌, length,
  drop, arith, All, All-take, All-drop, eq→==, le→leb, ◌∙◌,
}
use ripindex.Format.{Bytes, IsByte, Result, ok, err, to_le_bytes, read_u32_le, ◌>>=◌}
use ripindex.Format.Slice.{Fits, read_u32_le-eq, read_u32_le-lt}
use ripindex.Format.Checksum.{Crc32}
use ripindex.Format.Envelope
use ripindex.Format.Envelope.{del}
use ripindex.Format.Envelope.RoundTrip.{parse_verified-seal}
use ripindex.Format.Del.{
  Bitmap, DelView, popcount, count, div_ceil, last_overruns, encode, parse_body, parse_verified,
  to_bitmap,
}
use ripindex.Format.Del.Set.{Holds, IsValid, Spare-short, short-Spare, ones-Holds, count-ones}
use native.Mathlib.Nat.{one-le-pow}

length-Holds : (n : ℕ) (bs : Bytes) → Holds n bs → length bs ≡ div_ceil n 8
unfolding div_ceil
length-Holds n [] h = ground arith
length-Holds n (b ∷ bs) h = ground (arith, length-Holds (n - 8) bs h.3)

last_overruns-sub : (n : ℕ) (bs : Bytes) → 8 ≤ n → last_overruns bs n ≡ last_overruns bs (n - 8)
unfolding last_overruns
last_overruns-sub n [] h = refl
last_overruns-sub n (b ∷ []) h = let e : n % 8 ≡ (n - 8) % 8 = omega arith in rw e
last_overruns-sub n (b ∷ c ∷ bs) h = last_overruns-sub n (c ∷ bs) h

last_overruns_one : (n b : ℕ) → n < 8 → (b / 2 ^ (n % 8) ≡ 0) ↔ (b < 2 ^ n)
last_overruns_one n b h =
    let e : n % 8 ≡ n = omega arith in let pos = one-le-pow n 2 (omega arith) in rw e (grind arith)

last_overruns-Holds : (n : ℕ) (bs : Bytes) → Holds n bs → n % 8 ≢ 0 → last_overruns bs n ≡ false
unfolding last_overruns
last_overruns-Holds n [] h ne = refl
last_overruns-Holds n (b ∷ []) h ne =
    let short : n < 8 = omega (arith, h.3) in
    ground (arith, (last_overruns_one n b short).1 (Spare-short n b h.2 short))
last_overruns-Holds n (b ∷ c ∷ bs) h ne =
    let more : 0 < n - 8 = h.3.0 in
    last_overruns-sub n (c ∷ bs) (omega arith)
    ∙ last_overruns-Holds (n - 8) (c ∷ bs) h.3 (omega arith)

Holds-checked :
    (n : ℕ) (bs : Bytes)
    → All IsByte bs
    → length bs ≡ div_ceil n 8
    → (n % 8 ≢ 0 → last_overruns bs n ≡ false)
    → Holds n bs
unfolding last_overruns div_ceil
Holds-checked n [] hb len last = ground arith
Holds-checked n (b ∷ []) hb len last =
    let small : n ≤ 8 = ground arith in
    let some_bits : 0 < n = ground arith in
    (
      some_bits,
      hb.0,
      short-Spare n b
          (λ short. (last_overruns_one n b short).0 (ground (arith, last (omega arith)))),
      omega arith,
    )
Holds-checked n (b ∷ c ∷ bs) hb len last =
    let long : 8 < n = ground arith in
    (
      omega arith,
      hb.0,
      inl (omega arith),
      Holds-checked (n - 8) (c ∷ bs) hb.1 (ground arith)
          (λ ne. sym (last_overruns-sub n (c ∷ bs) (omega arith)) ∙ last (omega arith)),
    )

-- The body of the file of a bitmap.
abbrev pub del_body : Bitmap → Bytes
del_body b = to_le_bytes 4 b.num_docs ++ (to_le_bytes 4 (count b) ++ b.bits)

length-del_body : (b : Bitmap) → length (del_body b) ≡ 8 + length b.bits
unfolding to_le_bytes
length-del_body b = omega arith

module _ (b : Bitmap) (v : IsValid b) where
  bits-small : length b.bits < 2 ^ 30
  unfolding div_ceil
  bits-small = ground (arith, length-Holds b.num_docs b.bits v.holds, v.num_docs-lt)

  count-small : count b < 2 ^ 32
  count-small =
      rw (count-ones b v) (omega (arith, ones-Holds b.num_docs b.bits v.holds, v.num_docs-lt))

  body-Fits : Fits (del_body b)
  body-Fits = omega (arith, length-del_body b, bits-small)

  read_num_docs : read_u32_le (del_body b) 0 ≡ ok b.num_docs
  unfolding to_le_bytes
  read_num_docs =
      read_u32_le-eq (del_body b) 0 b.num_docs body-Fits (omega arith) refl v.num_docs-lt

  read_count : read_u32_le (del_body b) 4 ≡ ok (count b)
  unfolding to_le_bytes
  read_count = read_u32_le-eq (del_body b) 4 (count b) body-Fits (omega arith) refl count-small

  bits_of-body : drop 8 (del_body b) ≡ b.bits
  unfolding to_le_bytes
  bits_of-body = refl

  parse_body-del_body :
      (crc : ℕ)
      → parse_body (del_body b) crc
        ≡ ok (record { num_docs = b.num_docs; num_deleted = count b; bits = b.bits; crc = crc })
  unfolding parse_body
  parse_body-del_body crc =
      rw
        (
          le→leb 8 (length (del_body b)) (omega (arith, length-del_body b)),
          read_num_docs,
          read_count,
          bits_of-body,
          length-Holds b.num_docs b.bits v.holds,
          eq→== (div_ceil b.num_docs 8) _ refl,
        )
        (unfold count in ground (arith, last_overruns-Holds b.num_docs b.bits v.holds))

-- The file of a well-formed bitmap is accepted, and its view has the bitmap's documents, bits and
-- count, and the checksum of the body.
pub parse_verified-encode :
    (c : Crc32) (b : Bitmap)
    → IsValid b
    → parse_verified c (encode c b)
      ≡ ok (record {
        num_docs = b.num_docs;
        num_deleted = count b;
        bits = b.bits;
        crc = Envelope.crc c (del_body b);
      })
unfolding parse_verified encode
parse_verified-encode c b v =
    let (accepted, found) =
      parse_verified-seal c del (del_body b) (omega (arith, length-del_body b, bits-small b v)) in
    rw (accepted, found) (parse_body-del_body b v _)

-- The checks that a successful `parse_body` passed.
record Passed (body : Bytes) (v : DelView) : Type 0 where
  docs_read : read_u32_le body 0 ≡ ok v.num_docs
  deleted_read : read_u32_le body 4 ≡ ok v.num_deleted
  bits_at : v.bits ≡ drop 8 body
  room : length (drop 8 body) ≡ div_ceil v.num_docs 8
  counted : popcount (drop 8 body) ≡ v.num_deleted
  clear : v.num_docs % 8 ≢ 0 → last_overruns (drop 8 body) v.num_docs ≡ false

parse_body-Passed :
    (body : Bytes) (crc : ℕ) (v : DelView) → parse_body body crc ≡ ok v → Passed body v
unfolding parse_body
parse_body-Passed body crc v e = ground arith

parse_body-IsValid :
    (body : Bytes) (crc : ℕ) (v : DelView)
    → All IsByte body
    → parse_body body crc ≡ ok v
    → IsValid (to_bitmap v) × (count (to_bitmap v) ≡ v.num_deleted)
unfolding to_bitmap count
parse_body-IsValid body crc v h e =
    let p = parse_body-Passed body crc v e in
    (
      record {
        num_docs-lt = read_u32_le-lt body 0 v.num_docs h p.docs_read;
        holds =
            rw p.bits_at
              (Holds-checked v.num_docs (drop 8 body) (All-drop IsByte 8 body h) p.room p.clear);
      },
      rw p.bits_at p.counted,
    )

-- A file of bytes is accepted only if it holds a well-formed bitmap, whose count is the recorded
-- one.
pub parse_verified-IsValid :
    (c : Crc32) (bytes : Bytes) (v : DelView)
    → All IsByte bytes
    → parse_verified c bytes ≡ ok v
    → IsValid (to_bitmap v) × (count (to_bitmap v) ≡ v.num_deleted)
unfolding parse_verified
parse_verified-IsValid c bytes v h e = opened (Envelope.parse_verified c del bytes) e
  where
    opened :
        (r : Result Envelope.Envelope)
        → (r >>= λ env. parse_body (Envelope.body_of bytes env) env.stored) ≡ ok v
        → IsValid (to_bitmap v) × (count (to_bitmap v) ≡ v.num_deleted)
    opened (ok env) e =
        parse_body-IsValid _ env.stored v (All-take IsByte _ _ (All-drop IsByte _ bytes h)) e
    opened (err x) e = cc
