-- ===== src/Format/Idx/Stands.antt =====
-- src/format/idx.rs, `DiskCursor`: the states of a cursor on a posting list, and the steps between
-- them.
use ripindex.Common.{
  ℕ, ◌+◌, ◌^◌, ◌<◌, ◌≡◌, refl, sym, ap, ◌∙◌, true, false, Option, none, some, List, [], ◌∷◌, ◌++◌,
  length, take, arith, append_assoc, append-nil, length-append, take-append, ◌==◌, ne→==, eq→==,
  Bool-cases, inl, inr,
}
use ripindex.Format.{Bytes, ok}
use ripindex.Format.Idx.Postings.{Posting}
use ripindex.Format.Idx.Layout.{position_bytes, header_bytes, posting_bytes, Sound}
use ripindex.Format.Idx.Cursor.{Current, DiskCursor, load_next, decode_positions, positions}
use ripindex.Format.Idx.Reads.{start_of, current_at, decode_header-eq, decode_rounds-eq}
use mathlib.Core.Option

-- The cursor is about to load the first of `postings`.
pub record Before (c : DiskCursor) (front : Bytes) (prev : Option ℕ) (postings : List Posting)
    : Type 0 where
  pub bytes_at : c.bytes ≡ front ++ posting_bytes prev postings
  pub fits : length c.bytes < 2 ^ 64
  pub pos_at : c.pos ≡ length front
  pub remaining_at : c.remaining ≡ length postings
  pub doc_before : Option.map (λ (k : Current). k.doc) c.cur ≡ prev
  pub no_error : c.error ≡ none
  pub sound : Sound prev postings

-- The cursor stands on the posting `(d, ps)`, and `rest` follows.
pub record On (c : DiskCursor) (front : Bytes) (prev : Option ℕ) (d : ℕ) (ps : List ℕ)
    (rest : List Posting) : Type 0 where
  pub bytes_at : c.bytes ≡ front ++ posting_bytes prev ((d, ps) ∷ rest)
  pub fits : length c.bytes < 2 ^ 64
  pub cur_at : c.cur ≡ some (current_at front prev (d, ps))
  pub pos_at : c.pos ≡ start_of front prev (d, ps) + length (position_bytes none ps)
  pub remaining_at : c.remaining ≡ length rest
  pub no_error : c.error ≡ none
  pub decoded_right : c.decoded ≡ true → c.positions ≡ ps
  pub sound : Sound prev ((d, ps) ∷ rest)

-- The cursor is past the last posting.
pub record AtEnd (c : DiskCursor) : Type 0 where
  pub no_doc : c.cur ≡ none
  pub no_error : c.error ≡ none
  pub read_all : c.pos ≡ length c.bytes

pub load-On :
    (c : DiskCursor) (front : Bytes) (prev : Option ℕ) (d : ℕ) (ps : List ℕ) (rest : List Posting)
    → Before c front prev ((d, ps) ∷ rest)
    → On (load_next c) front prev d ps rest
unfolding load_next
load-On c front prev d ps rest b =
    let header =
      decode_header-eq c front prev d ps rest b.bytes_at b.fits b.pos_at b.doc_before b.sound in
    let more : (c.remaining == 0) ≡ false = ne→== _ _ (omega (arith, b.remaining_at)) in
    rw (more, header)
      (record {
        bytes_at = b.bytes_at;
        fits = b.fits;
        cur_at = refl;
        pos_at = refl;
        remaining_at = omega (arith, b.remaining_at);
        no_error = b.no_error;
        decoded_right = λ h. cc;
        sound = b.sound;
      })

pub load-AtEnd :
    (c : DiskCursor) (front : Bytes) (prev : Option ℕ)
    → Before c front prev []
    → AtEnd (load_next c)
unfolding load_next posting_bytes
load-AtEnd c front prev b =
    let none_left : (c.remaining == 0) ≡ true = eq→== _ _ (omega (arith, b.remaining_at)) in
    rw none_left (record {
      no_doc = refl;
      no_error = b.no_error;
      read_all = b.pos_at ∙ ap length (sym (append-nil front) ∙ sym b.bytes_at);
    })

pub On-Before :
    (c : DiskCursor) (front : Bytes) (prev : Option ℕ) (d : ℕ) (ps : List ℕ) (rest : List Posting)
    → On c front prev d ps rest
    → Before c (front ++ (header_bytes prev (d, ps) ++ position_bytes none ps)) (some d) rest
unfolding posting_bytes header_bytes
On-Before c front prev d ps rest o = record {
  bytes_at = o.bytes_at ∙ simp append_assoc;
  fits = o.fits;
  pos_at = o.pos_at ∙ simp (length-append {0}) (omega arith);
  remaining_at = o.remaining_at;
  doc_before = rw o.cur_at;
  no_error = o.no_error;
  sound = o.sound.6;
}

decode_positions-eq :
    (c : DiskCursor) (front : Bytes) (prev : Option ℕ) (d : ℕ) (ps : List ℕ) (rest : List Posting)
    → On c front prev d ps rest
    → decode_positions c (current_at front prev (d, ps)) ≡ ok ps
unfolding decode_positions posting_bytes header_bytes
decode_positions-eq c front prev d ps rest o = rw (
  whole,
  decode_rounds-eq ps none (before ++ body) before (start_of front prev (d, ps)) refl start-before
      o.sound.5,
  eq→== (start_of front prev (d, ps) + length body) _ refl,
)
  where
    body : Bytes
    body = position_bytes none ps

    before : Bytes
    before = front ++ header_bytes prev (d, ps)

    start-before : start_of front prev (d, ps) ≡ length before
    start-before = simp (length-append {0}) (omega arith)

    split : c.bytes ≡ (before ++ body) ++ posting_bytes (some d) rest
    split = o.bytes_at ∙ simp append_assoc

    end : start_of front prev (d, ps) + length body ≡ length (before ++ body)
    end = omega (arith, start-before, length-append before body)

    whole : take (start_of front prev (d, ps) + length body) c.bytes ≡ before ++ body
    whole = rw (end, split) (take-append (before ++ body) (posting_bytes (some d) rest))

positions_old : (c : DiskCursor) → c.decoded ≡ true → positions c ≡ c
unfolding positions
positions_old c h = ground arith

positions_new :
    (c : DiskCursor) (k : Current) (ps : List ℕ)
    → c.decoded ≡ false
    → c.cur ≡ some k
    → decode_positions c k ≡ ok ps
    → positions c ≡ record c { positions = ps; decoded = true }
unfolding positions
positions_new c k ps new at got = ground arith

-- Asking for the positions returns them, and leaves the cursor where it was.
pub positions-On :
    (c : DiskCursor) (front : Bytes) (prev : Option ℕ) (d : ℕ) (ps : List ℕ) (rest : List Posting)
    → On c front prev d ps rest
    → On (positions c) front prev d ps rest × ((positions c).positions ≡ ps)
positions-On c front prev d ps rest o = elim (Bool-cases c.decoded) [
  | inl old ↦ rw (positions_old c old) (o, o.decoded_right old)
  | inr new ↦
      rw (positions_new c _ ps new o.cur_at (decode_positions-eq c front prev d ps rest o)) (
        record {
          bytes_at = o.bytes_at;
          fits = o.fits;
          cur_at = o.cur_at;
          pos_at = o.pos_at;
          remaining_at = o.remaining_at;
          no_error = o.no_error;
          decoded_right = λ h. refl;
          sound = o.sound;
        },
        refl,
      )
]
