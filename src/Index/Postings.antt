-- ===== src/Index/Postings.antt =====
-- src/index/postings.rs: the traits `PostingList` and `PostingCursor`, through which a query sees
-- the postings of a term.
use ripindex.Common.{
  ℕ, ◌+◌, ◌≤◌, ◌≡◌, Option, none, some, List, [], ◌∷◌, length, leb, All, if◌then◌else◌,
}

-- A document and the positions of the term in it.
abbrev pub Posting : Type 0
Posting = ℕ × List ℕ

-- The documents strictly increase, from `lo` on.
abbrev pub Ascending : ℕ → List Posting → Type 0
Ascending lo [] = Unit
Ascending lo ((d, ps) ∷ rest) = (lo ≤ d) × Ascending (d + 1) rest

-- The positions strictly increase, from `lo` on.
abbrev pub InOrder : ℕ → List ℕ → Type 0
InOrder lo [] = Unit
InOrder lo (p ∷ ps) = (lo ≤ p) × InOrder (p + 1) ps

-- From the first document at or above the target on.
abbrev pub skip : ℕ → List Posting → List Posting
skip target [] = []
skip target ((d, ps) ∷ rest) = if leb target d then (d, ps) ∷ rest else skip target rest

-- `PostingList` and `PostingCursor`. The laws say what the comments on the traits promise, of the
-- postings that a list holds and that a cursor still has to come.
pub record PostingSource : Type 1 where
  pub PostingList : Type 0
  pub Cursor : Type 0
  pub doc_freq : PostingList → ℕ
  pub cursor : PostingList → Cursor
  pub doc : Cursor → Option ℕ
  pub advance : Cursor → Cursor
  pub seek : Cursor → ℕ → Cursor
  pub positions : Cursor → Cursor × List ℕ
  pub term_freq : Cursor → Cursor × ℕ
  pub holds : PostingList → List Posting
  pub Stands : Cursor → List Posting → Type 0
  pub holds-Ascending : (l : PostingList) → Ascending 0 (holds l)
  pub holds-InOrder : (l : PostingList) → All (λ posting. InOrder 0 posting.1) (holds l)
  pub doc_freq-holds : (l : PostingList) → doc_freq l ≡ length (holds l)
  pub cursor-Stands : (l : PostingList) → Stands (cursor l) (holds l)
  pub doc-end : (c : Cursor) → Stands c [] → doc c ≡ none
  pub doc-here :
      (c : Cursor) (d : ℕ) (ps : List ℕ) (rest : List Posting)
      → Stands c ((d, ps) ∷ rest)
      → doc c ≡ some d
  pub advance-Stands :
      (c : Cursor) (d : ℕ) (ps : List ℕ) (rest : List Posting)
      → Stands c ((d, ps) ∷ rest)
      → Stands (advance c) rest
  pub seek-Stands :
      (c : Cursor) (target : ℕ) (postings : List Posting)
      → Stands c postings
      → Stands (seek c target) (skip target postings)
  pub positions-here :
      (c : Cursor) (d : ℕ) (ps : List ℕ) (rest : List Posting)
      → Stands c ((d, ps) ∷ rest)
      → Stands (positions c).0 ((d, ps) ∷ rest) × ((positions c).1 ≡ ps)
  pub term_freq-here :
      (c : Cursor) (d : ℕ) (ps : List ℕ) (rest : List Posting)
      → Stands c ((d, ps) ∷ rest)
      → Stands (term_freq c).0 ((d, ps) ∷ rest) × ((term_freq c).1 ≡ length ps)
