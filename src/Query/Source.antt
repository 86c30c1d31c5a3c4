-- ===== src/Query/Source.antt =====
-- src/index/mod.rs, the traits through which a query sees an index, and
-- src/query/bm25.rs, whose `f32` scores are a parameter.
use ripindex.Common.{ℕ, ◌≤◌, ◌≡◌, Option, none, List}
use ripindex.Query.Syntax.{Text}
pub use ripindex.Index.Postings.{Posting, Ascending, skip, PostingSource}

-- `SegmentReader`: the ids are local, and no id from `num_docs` on has a length.
pub record Segment (source : PostingSource) : Type 0 where
  pub base : ℕ
  pub num_docs : ℕ
  pub postings : Text → Option (PostingSource.PostingList source)
  pub doc_len : ℕ → Option ℕ
  pub doc_len-bound : (d : ℕ) → num_docs ≤ d → doc_len d ≡ none

-- `Bm25`, whose parameters are part of its operations.
pub record Bm25 : Type 1 where
  pub Score : Type 0
  pub plus : Score → Score → Score
  pub sum : List Score → Score
  -- From the number of documents, and how many of them have the term.
  pub idf : ℕ → ℕ → Score
  -- From the idf, the term's frequency, the document's length and the average length.
  pub rate : Score → ℕ → ℕ → Score → Score

-- `IndexReader`.
pub record IndexReader (source : PostingSource) (bm25 : Bm25) : Type 0 where
  pub segments : List (Segment source)
  pub indexed_count : ℕ
  pub avg_len : Bm25.Score bm25
