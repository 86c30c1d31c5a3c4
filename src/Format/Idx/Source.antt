-- ===== src/Format/Idx/Source.antt =====
-- src/format/idx.rs, `DiskPostingList` as a `PostingList`, and its check on encoded lists.
use ripindex.Common.{
  ℕ, zero, suc, ◌+◌, ◌<◌, ◌≡◌, refl, sym, ap, ◌∙◌, none, some, List, [], ◌∷◌, length, arith, ◌==◌,
  if◌then◌else◌, eq→==, true, false, Bool-cases, inl, inr, All, Option,
}
use ripindex.Format.{Bytes, Result, ok, err, corrupt, doc_count_disagrees}
use ripindex.Format.Varint.{put_u32, read_u32}
use ripindex.Format.Varint.RoundTrip.{read_u32-at}
use ripindex.Format.Idx.Postings.{Posting}
use ripindex.Format.Idx.Layout.{Sound, posting_bytes, list_bytes, IsPostingList, Increasing}
use ripindex.Format.Idx.Cursor.{
  DiskCursor, fail, loaded, load_next, started, new, decoded_with, decode_current, doc, advance,
  seek, positions, term_freq,
}
use ripindex.Format.Idx.Stands.{AtEnd}
use ripindex.Format.Idx.Yields.{Stands, new-Stands, Stands-Yields, advance-Stands, positions-Stands}
use ripindex.Format.Idx.Seek.{seek-Stands}
use ripindex.Format.Idx.List.{cursor, count_docs, judge, verify}
use ripindex.Index.Postings.{Ascending, PostingSource, InOrder}

load_next-bytes : (c : DiskCursor) → (load_next c).bytes ≡ c.bytes
unfolding load_next loaded fail
load_next-bytes c = ground arith

positions-bytes : (c : DiskCursor) → (positions c).bytes ≡ c.bytes
unfolding positions decode_current decoded_with fail
positions-bytes c = ground arith

advance-bytes : (c : DiskCursor) → (advance c).bytes ≡ c.bytes
unfolding advance
advance-bytes c = ground (arith, load_next-bytes c)

started-bytes : (c : DiskCursor) (r : Result (ℕ × ℕ)) → (started c r).bytes ≡ c.bytes
unfolding started fail
started-bytes c (ok (n, p)) = refl
started-bytes c (err e) = refl

new-bytes : (b : Bytes) → (new b).bytes ≡ b
unfolding new
new-bytes b =
    let c : DiskCursor = record {
      bytes = b;
      pos = 0;
      remaining = 0;
      cur = none;
      positions = [];
      decoded = false;
      error = none;
    } in
    load_next-bytes (started c (read_u32 b 0)) ∙ started-bytes c (read_u32 b 0)

no_error_on :
    (c : DiskCursor) (d : ℕ) (ps : List ℕ) (rest : List Posting)
    → Stands c ((d, ps) ∷ rest)
    → c.error ≡ none
no_error_on c d ps rest (front, prev, o) = o.no_error

-- The loop of `verify` counts the postings and ends behind the last.
count_docs-AtEnd :
    (f : ℕ) (c : DiskCursor) (postings : List Posting) (n : ℕ)
    → length postings < f
    → Stands c postings
    → AtEnd (count_docs f c n).0
      × ((count_docs f c n).0.bytes ≡ c.bytes)
      × ((count_docs f c n).1 ≡ n + length postings)
unfolding count_docs
count_docs-AtEnd zero c postings n h s = absurd (omega arith)
count_docs-AtEnd (suc f) c [] n h s =
    rw ((Stands-Yields c [] s).0, count_docs) (s, refl, omega arith)
count_docs-AtEnd (suc f) c ((d, ps) ∷ rest) n h s =
    let y = Stands-Yields c ((d, ps) ∷ rest) s in
    let same : (length (positions c).positions == term_freq c) ≡ true =
      eq→== _ _ (ap length y.2 ∙ sym y.1) in
    let ih =
      count_docs-AtEnd f (advance (positions c)) rest (suc n) (omega arith)
        (advance-Stands (positions c) d ps rest (positions-Stands c d ps rest s)) in
    rw (y.0, no_error_on c d ps rest s, same, count_docs)
      (ih.0, ih.1 ∙ advance-bytes (positions c) ∙ positions-bytes c, omega (arith, ih.2))

-- The full check of an encoded list passes exactly if the dictionary has the right number of
-- documents, and says otherwise that it has not.
pub verify-list_bytes :
    (postings : List Posting) (n : ℕ)
    → IsPostingList postings
    → verify (record { bytes = list_bytes postings; doc_freq = n })
      ≡ (if length postings == n then ok tt else err (corrupt doc_count_disagrees))
unfolding verify
verify-list_bytes postings n v =
    let count : read_u32 (list_bytes postings) 0
        ≡ ok (length postings, 0 + length (put_u32 [] (length postings))) =
      unfold list_bytes in
      read_u32-at [] (posting_bytes none postings) (length postings) v.count-lt in
    let e =
      count_docs-AtEnd (suc (length postings)) (new (list_bytes postings)) postings 0 (omega arith)
        (new-Stands postings v) in
    rw (count, verify)
      (elim (Bool-cases (length postings == n)) [
        | inl right ↦ rw (right) (
            passes (count_docs (suc (length postings)) (new (list_bytes postings)) 0).0
              (count_docs (suc (length postings)) (new (list_bytes postings)) 0).1 e.0
              (e.1 ∙ new-bytes _) (omega (arith, e.2)))
        | inr wrong ↦ rw wrong refl
      ])
  where
    passes :
        (c : DiskCursor) (m : ℕ)
        → AtEnd c
        → c.bytes ≡ list_bytes postings
        → m ≡ length postings
        → judge (record { bytes = list_bytes postings; doc_freq = n }) (length postings) c m ≡ ok tt
    passes c m a b e =
        unfold judge in
        rw
          (
            a.no_error,
            eq→== m (length postings) e,
            eq→== c.pos (length (list_bytes postings)) (a.read_all ∙ ap length b),
          )
          refl

Sound-Ascending :
    (p : ℕ) (postings : List Posting) → Sound (some p) postings → Ascending (p + 1) postings
Sound-Ascending p [] s = tt
Sound-Ascending p ((d, ps) ∷ rest) s = (omega (arith, s.0), Sound-Ascending d rest s.6)

pub all_Ascending : (postings : List Posting) → Sound none postings → Ascending 0 postings
all_Ascending [] s = tt
all_Ascending ((d, ps) ∷ rest) s = (omega arith, Sound-Ascending d rest s.6)

Increasing-InOrder : (p : ℕ) (ps : List ℕ) → Increasing (some p) ps → InOrder (p + 1) ps
Increasing-InOrder p [] s = tt
Increasing-InOrder p (q ∷ ps) s = (omega (arith, s.0), Increasing-InOrder q ps s.2)

in_order : (ps : List ℕ) → Increasing none ps → InOrder 0 ps
in_order [] s = tt
in_order (p ∷ ps) s = (omega arith, Increasing-InOrder p ps s.2)

pub Sound-InOrder :
    (prev : Option ℕ) (postings : List Posting)
    → Sound prev postings
    → All (λ posting. InOrder 0 posting.1) postings
Sound-InOrder prev [] s = tt
Sound-InOrder prev ((d, ps) ∷ rest) s = (in_order ps s.5, Sound-InOrder (some d) rest s.6)

-- The lists that the encoder accepts, read by `DiskCursor`.
abbrev pub disk_source : PostingSource
disk_source = record {
  PostingList = (postings : List Posting) × IsPostingList postings;
  Cursor = DiskCursor;
  doc_freq = λ l. length l.0;
  cursor = λ l. cursor (record { bytes = list_bytes l.0; doc_freq = length l.0 });
  doc = doc;
  advance = advance;
  seek = seek;
  positions = λ c. (positions c, (positions c).positions);
  term_freq = λ c. (c, term_freq c);
  holds = λ l. l.0;
  Stands = Stands;
  holds-Ascending = λ l. all_Ascending l.0 l.1.sound;
  holds-InOrder = λ l. Sound-InOrder none l.0 l.1.sound;
  doc_freq-holds = λ l. refl;
  cursor-Stands = λ l. new-Stands l.0 l.1;
  doc-end = λ c s. (Stands-Yields c [] s).0;
  doc-here = λ c d ps rest s. (Stands-Yields c ((d, ps) ∷ rest) s).0;
  advance-Stands = advance-Stands;
  seek-Stands = seek-Stands;
  positions-here =
      λ c d ps rest s. (positions-Stands c d ps rest s, (Stands-Yields c ((d, ps) ∷ rest) s).2);
  term_freq-here = λ c d ps rest s. (s, (Stands-Yields c ((d, ps) ∷ rest) s).1);
}
