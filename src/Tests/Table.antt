-- ===== src/Tests/Table.antt =====
-- src/index/doc_table.rs, on a table of two documents and a hole.
use ripindex.Common.{◌≡◌, refl, arith, none, some, [], ◌∷◌}
use ripindex.Format.{pos}
use ripindex.Index.Table.{
  DocStatus, skipped, DocMeta, DocTable, insert, mark_indexed, is_indexed, grow, insert_at, mark_at,
  filled, add, sub, iter, iter_from,
}
use ripindex.Index.Table.Counted.{IsCounted}
use ripindex.Index.Table.Reached.{start, next, inserted, marked, Reach-IsCounted}

abbrev fox_meta : DocMeta
fox_meta = record {
  path = [];
  inode = 7;
  mtime = pos 0;
  size = 12;
  len = 0;
  status = skipped;
  content_hash = 0;
}

abbrev one_doc : DocTable
one_doc = record { slots = none ∷ some fox_meta ∷ []; live = 1; indexed = 0; total_len = 0 }

abbrev fox_indexed : DocMeta
fox_indexed = record fox_meta { status = DocStatus.indexed; len = 3 }

abbrev one_indexed : DocTable
one_indexed = record { slots = none ∷ some fox_indexed ∷ []; live = 1; indexed = 1; total_len = 3 }

Reach-IsCounted_example : IsCounted one_indexed
unfolding insert mark_indexed is_indexed grow insert_at mark_at filled add sub
Reach-IsCounted_example = Reach-IsCounted one_indexed (
    next (next start (inserted 1 fox_meta (omega arith) (omega arith) refl))
      (marked 1 3 (omega arith) refl))

iter-one_indexed : iter one_indexed ≡ (1, fox_indexed) ∷ []
unfolding iter iter_from
iter-one_indexed = refl
