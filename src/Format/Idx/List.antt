-- ===== src/Format/Idx/List.antt =====
-- src/format/idx.rs, `DiskPostingList`: the bytes of a posting list, and their full check.
use ripindex.Common.{ℕ, zero, suc, true, false, none, some, length, ◌==◌}
use ripindex.Format.{
  Bytes, Result, err, ◌>>=◌, ◌>>◌, require, corrupt, doc_count_disagrees, list_length_disagrees,
}
use ripindex.Format.Varint.{read_u32}
use ripindex.Format.Idx.Cursor.{DiskCursor, new, doc, advance, positions, term_freq}

pub record DiskPostingList : Type 0 where
  pub bytes : Bytes
  pub doc_freq : ℕ

abbrev pub encoded_len : DiskPostingList → ℕ
encoded_len l = length l.bytes

-- `PostingList::cursor`
abbrev pub cursor : DiskPostingList → DiskCursor
cursor l = new l.bytes

-- The loop of `verify`, over the cursor and the number of documents seen.
unfoldable pub count_docs : ℕ → DiskCursor → ℕ → DiskCursor × ℕ
unfolding doc advance positions term_freq
count_docs zero c n = (c, n)
count_docs (suc f) c n = elim (doc c) [
  | none ↦ (c, n)
  | some d ↦ elim c.error [
    | some e ↦ (c, n)
    | none ↦ elim (length (positions c).positions == term_freq c) [
      | false ↦ (positions c, n)
      | true ↦ count_docs f (advance (positions c)) (suc n)
    ]
  ]
]

-- What `verify` makes of the cursor that the loop leaves.
unfoldable pub judge : DiskPostingList → ℕ → DiskCursor → ℕ → Result (Unit {0})
judge l count c n = elim c.error [
  | some e ↦ err e
  | none ↦ do
    require (n == count) (corrupt list_length_disagrees)
    require (c.pos == length l.bytes) (corrupt list_length_disagrees)
]

-- A round for each document, and one to see that none is left.
unfoldable pub verify : DiskPostingList → Result (Unit {0})
unfolding count_docs judge
verify l = do
  (count, _) ← read_u32 l.bytes 0
  require (count == l.doc_freq) (corrupt doc_count_disagrees)
  let (c, n) = count_docs (suc count) (new l.bytes) 0
  judge l count c n
