-- ===== src/Format/Idx/Reads.antt =====
-- src/format/idx.rs, `DiskCursor` on the bytes of a posting list: it yields the documents in order,
-- each with its positions, whether or not the positions are asked for.
use ripindex.Common.{
  ℕ, ◌+◌, ◌^◌, ◌≤◌, ◌<◌, ◌≡◌, refl, sym, ap, ◌∙◌, Option, none, some, List, [], ◌∷◌, ◌++◌, length,
  arith, append_assoc, length-append, lt→ltb, le→leb, ne→==,
}
use ripindex.Format.{Bytes, FormatError, ok}
use ripindex.Format.Varint.{put_u32, read_u32}
use ripindex.Format.Varint.RoundTrip.{read_u32-at}
use ripindex.Format.Idx.Postings.{Posting, delta}
use ripindex.Format.Idx.Layout.{
  position_bytes, header_bytes, posting_bytes, Above, Increasing, Sound,
}
use ripindex.Format.Idx.Cursor.{Current, DiskCursor, add_delta, decode_header, decode_rounds}
use mathlib.Core.Option

delta-lt : (prev : Option ℕ) (n : ℕ) → n < 2 ^ 32 → delta prev n < 2 ^ 32
unfolding delta
delta-lt none n h = h
delta-lt (some p) n h = omega arith

add_delta-delta :
    (e₁ e₂ : FormatError) (prev : Option ℕ) (n : ℕ)
    → Above prev n
    → n < 2 ^ 32
    → add_delta e₁ e₂ prev (delta prev n) ≡ ok n
unfolding add_delta delta
add_delta-delta e₁ e₂ none n a h = refl
add_delta-delta e₁ e₂ (some p) n a h = ground arith

-- The same varint, at a place that is named by its number.
read_here :
    (bytes pre rest : Bytes) (at v : ℕ)
    → bytes ≡ pre ++ (put_u32 [] v ++ rest)
    → at ≡ length pre
    → v < 2 ^ 32
    → read_u32 bytes at ≡ ok (v, at + length (put_u32 [] v))
read_here bytes pre rest at v e l h = rw (e, l) (read_u32-at pre rest v h)

pub decode_rounds-eq :
    (ps : List ℕ) (prev : Option ℕ) (slice front : Bytes) (at : ℕ)
    → slice ≡ front ++ position_bytes prev ps
    → at ≡ length front
    → Increasing prev ps
    → decode_rounds (length ps) slice at prev ≡ ok (ps, at + length (position_bytes prev ps))
unfolding decode_rounds position_bytes
decode_rounds-eq [] prev slice front at e l h = let z : at + 0 ≡ at = omega arith in rw z
decode_rounds-eq (p ∷ ps) prev slice front at e l (ha, hp, hi) =
    let one = put_u32 [] (delta prev p) in
    let next : at + length one ≡ length (front ++ one) = omega (arith, length-append front one) in
    let sum : at + length one + length (position_bytes (some p) ps)
        ≡ at + length (one ++ position_bytes (some p) ps) =
      omega (arith, length-append one (position_bytes (some p) ps)) in
    rw (
      read_here slice front (position_bytes (some p) ps) at (delta prev p) e l (delta-lt prev p hp),
      add_delta-delta _ _ prev p ha hp,
      decode_rounds-eq ps (some p) slice (front ++ one) (at + length one)
          (e ∙ sym (append_assoc front one _)) next hi,
      sum,
    )

-- Where the positions of the next posting begin.
abbrev pub start_of : Bytes → Option ℕ → Posting → ℕ
start_of front prev (d, ps) =
    length front
    + length (put_u32 [] (delta prev d))
    + length (put_u32 [] (length ps))
    + length (put_u32 [] (length (position_bytes none ps)))

abbrev pub current_at : Bytes → Option ℕ → Posting → Current
current_at front prev (d, ps) = record {
  doc = d;
  tf = length ps;
  pos_start = start_of front prev (d, ps);
  pos_end = start_of front prev (d, ps) + length (position_bytes none ps);
}

pub decode_header-eq :
    (c : DiskCursor) (front : Bytes) (prev : Option ℕ) (d : ℕ) (ps : List ℕ) (rest : List Posting)
    → c.bytes ≡ front ++ posting_bytes prev ((d, ps) ∷ rest)
    → length c.bytes < 2 ^ 64
    → c.pos ≡ length front
    → Option.map (λ (k : Current). k.doc) c.cur ≡ prev
    → Sound prev ((d, ps) ∷ rest)
    → decode_header c
      ≡ ok (
        current_at front prev (d, ps),
        start_of front prev (d, ps) + length (position_bytes none ps),
      )
unfolding decode_header posting_bytes header_bytes
decode_header-eq c front prev d ps rest e hf l hc (ha, hd, hn, hl, hb, hi, hr) = rw (
  l,
  read_here c.bytes front ((second ++ third) ++ (body ++ tail)) (length front) (delta prev d)
      (e ∙ simp append_assoc) refl (delta-lt prev d hd),
  hc,
  add_delta-delta _ _ prev d ha hd,
  read_here c.bytes (front ++ first) (third ++ (body ++ tail)) after_first (length ps)
      (e ∙ simp append_assoc) (omega (arith, length-append front first)) hl,
  ne→== (length ps) 0 (omega arith),
  read_here c.bytes ((front ++ first) ++ second) (body ++ tail) after_second (length body)
      (e ∙ simp append_assoc)
      (omega (arith, length-append (front ++ first) second, length-append front first)) hb,
  lt→ltb (start + length body) (2 ^ 64) (omega (arith, inside)),
  le→leb (start + length body) (length c.bytes) inside,
)
  where
    first : Bytes
    first = put_u32 [] (delta prev d)

    second : Bytes
    second = put_u32 [] (length ps)

    body : Bytes
    body = position_bytes none ps

    third : Bytes
    third = put_u32 [] (length body)

    after_first : ℕ
    after_first = length front + length first

    after_second : ℕ
    after_second = after_first + length second

    start : ℕ
    start = after_second + length third

    tail : Bytes
    tail = posting_bytes (some d) rest

    inside : start + length body ≤ length c.bytes
    inside = omega (
      arith,
      ap length e,
      length-append front ((first ++ (second ++ third)) ++ (body ++ tail)),
      length-append (first ++ (second ++ third)) (body ++ tail),
      length-append first (second ++ third),
      length-append second third,
      length-append body tail,
    )
