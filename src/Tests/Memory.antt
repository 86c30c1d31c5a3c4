-- ===== src/Tests/Memory.antt =====
-- src/index/memory.rs, on lists and stores of a few postings.
use ripindex.Common.{◌≡◌, refl, ◌&&◌, ◌||◌, none, List, [], ◌∷◌, ◌==◌, drop, arith, inr}
use ripindex.Index.Postings.{Posting, Ascending, skip}
use ripindex.Index.Memory.{MemPostingCursor, MemTermStore, push, seek, get, merge_shard}
use ripindex.Index.Memory.Gallop.{seek-skip}
use ripindex.Index.Memory.Build.{InOrder, occurs, push_lem}
use ripindex.Index.Memory.Store.{joined, merge_shard_lem}

abbrev five : List Posting
five = (1, 0 ∷ []) ∷ (4, 2 ∷ []) ∷ (6, 1 ∷ 3 ∷ []) ∷ (9, 0 ∷ []) ∷ (12, 5 ∷ 8 ∷ []) ∷ []

five-Ascending : Ascending 0 five
five-Ascending = (omega arith, (omega arith, (omega arith, (omega arith, (omega arith, tt)))))

abbrev second : MemPostingCursor
second = record { postings = five; idx = 1 }

seek-skip_example : drop (seek second 10).idx (seek second 10).postings ≡ skip 10 (drop 1 five)
seek-skip_example = seek-skip second 10 five-Ascending

five-InOrder : InOrder 0 five
five-InOrder = (
  omega arith,
  (omega arith, tt),
  (
    omega arith,
    (omega arith, tt),
    (
      omega arith,
      (omega arith, (omega arith, tt)),
      (omega arith, (omega arith, tt), (omega arith, (omega arith, (omega arith, tt)), tt)),
    ),
  ),
)

push_lem_example :
    InOrder 0 (push five 12 8)
    × (occurs 12 8 (push five 12 8) ≡ (occurs 12 8 five || ((12 == 12) && (8 == 8))))
push_lem_example = push_lem 12 8 12 8 five five-InOrder (inr (refl, omega arith))

abbrev old_terms : MemTermStore
old_terms = (97 ∷ [], five) ∷ (98 ∷ [], []) ∷ []

abbrev new_terms : MemTermStore
new_terms = (97 ∷ [], (20, 0 ∷ []) ∷ []) ∷ (99 ∷ [], (21, 4 ∷ []) ∷ []) ∷ []

new_terms-Unique : get ((99 ∷ [], (21, 4 ∷ []) ∷ []) ∷ []) (97 ∷ []) ≡ none
unfolding get
new_terms-Unique = refl

merge_shard_lem_example :
    get (merge_shard old_terms new_terms) (97 ∷ [])
    ≡ joined (get old_terms (97 ∷ [])) (get new_terms (97 ∷ []))
merge_shard_lem_example =
    merge_shard_lem old_terms new_terms (97 ∷ []) (new_terms-Unique, (unfold get in refl, tt))
