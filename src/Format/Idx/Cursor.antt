-- ===== src/Format/Idx/Cursor.antt =====
-- src/format/idx.rs, `DiskCursor`: a lazy decoder over the bytes of one posting list. A read that
-- fails leaves `pos` as it was; after `fail` no operation reads on.
use ripindex.Common.{
  ℕ, zero, suc, ◌+◌, ◌-◌, ◌^◌, Bool, true, false, not, ◌&&◌, Option, none, some, List, [], ◌∷◌,
  length, take, ltb, leb, ◌==◌, if◌then◌else◌,
}
use ripindex.Format.{
  Bytes, FormatError, Result, ok, err, ◌>>=◌, ◌>>◌, require, truncated, corrupt, zero_doc_delta,
  doc_id_overflow, zero_term_frequency, zero_position_delta, position_overflow, pos_bytes_disagree,
}
use ripindex.Format.Varint.{read_u32}
use mathlib.Core.Option

pub record Current : Type 0 where
  pub doc : ℕ
  pub tf : ℕ
  pub pos_start : ℕ
  pub pos_end : ℕ

pub record DiskCursor : Type 0 where
  pub bytes : Bytes
  pub pos : ℕ
  pub remaining : ℕ
  pub cur : Option Current
  pub positions : List ℕ
  pub decoded : Bool
  pub error : Option FormatError

unfoldable pub fail : DiskCursor → FormatError → DiskCursor
fail c e = record c { error = some e; cur = none; remaining = 0 }

-- A difference on top of the number before: not zero, and no overflow of `u32`.
unfoldable pub add_delta : FormatError → FormatError → Option ℕ → ℕ → Result ℕ
add_delta on_zero on_overflow none d = ok d
add_delta on_zero on_overflow (some q) d =
    if d == 0 then err on_zero else if ltb (q + d) (2 ^ 32) then ok (q + d) else err on_overflow

unfoldable pub decode_header : DiskCursor → Result (Current × ℕ)
unfolding add_delta
decode_header c = do
  (delta, p₁) ← read_u32 c.bytes c.pos
  doc ←
      add_delta (corrupt zero_doc_delta) (corrupt doc_id_overflow)
        (Option.map (λ (k : Current). k.doc) c.cur) delta
  (tf, p₂) ← read_u32 c.bytes p₁
  require (not (tf == 0)) (corrupt zero_term_frequency)
  (pos_bytes, p₃) ← read_u32 c.bytes p₂
  require (ltb (p₃ + pos_bytes) (2 ^ 64) && leb (p₃ + pos_bytes) (length c.bytes))
      (truncated p₃ pos_bytes)
  ok (record { doc = doc; tf = tf; pos_start = p₃; pos_end = p₃ + pos_bytes }, p₃ + pos_bytes)

unfoldable pub loaded : DiskCursor → Result (Current × ℕ) → DiskCursor
unfolding fail
loaded c (ok (k, p)) = record c {
  cur = some k;
  pos = p;
  remaining = c.remaining - 1;
  decoded = false;
}
loaded c (err e) = fail c e

unfoldable pub load_next : DiskCursor → DiskCursor
unfolding loaded
load_next c = if c.remaining == 0 then record c { cur = none } else loaded c (decode_header c)

unfoldable pub started : DiskCursor → Result (ℕ × ℕ) → DiskCursor
unfolding fail
started c (ok (n, p)) = record c { remaining = n; pos = p }
started c (err e) = fail c e

unfoldable pub new : Bytes → DiskCursor
unfolding started
new bytes =
    let c : DiskCursor = record {
      bytes = bytes;
      pos = 0;
      remaining = 0;
      cur = none;
      positions = [];
      decoded = false;
      error = none;
    } in
    load_next (started c (read_u32 bytes 0))

-- The loop of `decode_positions`: the rounds left, the place, the position before.
unfoldable pub decode_rounds : ℕ → Bytes → ℕ → Option ℕ → Result (List ℕ × ℕ)
unfolding add_delta
decode_rounds zero slice p prev = ok ([], p)
decode_rounds (suc rounds) slice p prev = do
  (d, p') ← read_u32 slice p
  v ← add_delta (corrupt zero_position_delta) (corrupt position_overflow) prev d
  (vs, p'') ← decode_rounds rounds slice p' (some v)
  ok (v ∷ vs, p'')

unfoldable pub decode_positions : DiskCursor → Current → Result (List ℕ)
decode_positions c k = do
  (vs, p) ← decode_rounds k.tf (take k.pos_end c.bytes) k.pos_start none
  require (p == k.pos_end) (corrupt pos_bytes_disagree)
  ok vs

unfoldable pub decoded_with : DiskCursor → Result (List ℕ) → DiskCursor
unfolding fail
decoded_with c (ok vs) = record c { positions = vs; decoded = true }
decoded_with c (err e) = let c' = fail c e in record c' { positions = []; decoded = true }

-- `doc`, `advance`, `positions` and `term_freq` of the cursor.
unfoldable pub doc : DiskCursor → Option ℕ
doc c = Option.map (λ (k : Current). k.doc) c.cur

unfoldable pub advance : DiskCursor → DiskCursor
advance c = elim c.cur [ none ↦ c | some k ↦ load_next c ]

-- With no current document there is nothing to decode, and the buffer is kept.
unfoldable pub decode_current : DiskCursor → DiskCursor
unfolding decoded_with
decode_current c = elim c.cur [
  | none ↦ record c { decoded = true }
  | some k ↦ decoded_with c (decode_positions c k)
]

-- The cursor after the call, whose field `positions` is what the call returns.
unfoldable pub positions : DiskCursor → DiskCursor
unfolding decode_current
positions c = if c.decoded then c else decode_current c

unfoldable pub term_freq : DiskCursor → ℕ
term_freq c = elim c.cur [ none ↦ 0 | some k ↦ k.tf ]

-- `while let Some(c) = self.cur`: each round takes a document off `remaining`, or ends the loop.
unfoldable pub seek_rounds : ℕ → DiskCursor → ℕ → DiskCursor
seek_rounds zero c target = c
seek_rounds (suc rounds) c target = elim c.cur [
  | none ↦ c
  | some k ↦ elim (leb target k.doc) [ true ↦ c | false ↦ seek_rounds rounds (load_next c) target ]
]

unfoldable pub seek : DiskCursor → ℕ → DiskCursor
seek c target = seek_rounds (c.remaining + 2) c target
