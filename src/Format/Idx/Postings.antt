-- ===== src/Format/Idx/Postings.antt =====
-- src/format/idx.rs, `encode_postings`: document ids and positions as varints of their differences.
use ripindex.Common.{
  ℕ, ◌+◌, ◌-◌, ◌%◌, ◌^◌, Bool, Option, none, some, List, [], ◌∷◌, ◌++◌, length, leb, if◌then◌else◌,
}
use ripindex.Format.{
  Bytes, Result, ok, err, ◌>>=◌, invariant, doc_ids_not_increasing, no_positions,
  positions_not_increasing,
}
use ripindex.Format.Varint.{put_u32}

-- A document and the positions of the term in it.
abbrev pub Posting : Type 0
Posting = ℕ × List ℕ

-- The difference to the number before, or the number itself where there is none.
unfoldable pub delta : Option ℕ → ℕ → ℕ
delta none n = n
delta (some p) n = n - p

-- The guard `Some(p) if n <= p`.
unfoldable pub stalls : Option ℕ → ℕ → Bool
stalls none n = Bool.false
stalls (some p) n = leb n p

-- The inner loop, which fills `scratch`.
unfoldable pub encode_positions : List ℕ → Option ℕ → Bytes → Result Bytes
unfolding stalls delta
encode_positions [] prev_pos scratch = ok scratch
encode_positions (p ∷ ps) prev_pos scratch =
    let rest = encode_positions ps (some p) (put_u32 scratch (delta prev_pos p)) in
    if stalls prev_pos p then err (invariant positions_not_increasing) else rest

unfoldable pub is_empty {ℓ} : {A : Type ℓ} → List A → Bool
is_empty [] = Bool.true
is_empty (x ∷ xs) = Bool.false

-- One round of the outer loop: `out` after the posting.
unfoldable pub encode_posting : Option ℕ → Posting → Bytes → Result Bytes
unfolding stalls delta is_empty
encode_posting prev_doc (doc, positions) out =
    if stalls prev_doc doc
    then err (invariant doc_ids_not_increasing)
    else if is_empty positions
    then err (invariant no_positions)
    else do
      let counted = put_u32 (put_u32 out (delta prev_doc doc)) (length positions % 2 ^ 32)
      scratch ← encode_positions positions none []
      ok (put_u32 counted (length scratch % 2 ^ 32) ++ scratch)

unfoldable pub encode_rounds : List Posting → Option ℕ → Bytes → ℕ → Result (Bytes × ℕ)
encode_rounds [] prev_doc out tokens = ok (out, tokens)
encode_rounds ((doc, positions) ∷ rest) prev_doc out tokens = do
  out' ← encode_posting prev_doc (doc, positions) out
  encode_rounds rest (some doc) out' (tokens + length positions)

-- The buffer after the list, and the number of positions.
unfoldable pub encode_postings : List Posting → Bytes → Result (Bytes × ℕ)
encode_postings postings out =
    encode_rounds postings none (put_u32 out (length postings % 2 ^ 32)) 0
