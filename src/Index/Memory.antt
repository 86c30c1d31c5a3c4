-- ===== src/Index/Memory.antt =====
-- src/index/memory.rs: posting lists in memory, their cursor, and the term store.
pub mod Build
pub mod Bracket
pub mod Gallop
pub mod Store
use Prim.Native.Nat.{min}
use ripindex.Common.{
  ℕ, zero, suc, ◌+◌, ◌-◌, ◌*◌, Bool, true, false, ◌&&◌, Option, none, some, List, [], ◌∷◌, ◌++◌,
  length, get_elem?, take, drop, ltb, leb, ◌==◌, if◌then◌else◌,
}
use ripindex.Index.Postings.{Posting}
use ripindex.Query.Syntax.{Text, text_eq}

-- The end of a posting's positions: a repeat of the last one is dropped.
unfoldable pub push_position : List ℕ → ℕ → List ℕ
push_position [] p = p ∷ []
push_position (q ∷ []) p = if q == p then q ∷ [] else q ∷ p ∷ []
push_position (q ∷ r ∷ qs) p = q ∷ push_position (r ∷ qs) p

-- `MemPostingList::push`
unfoldable pub push : List Posting → ℕ → ℕ → List Posting
unfolding push_position
push [] doc position = (doc, position ∷ []) ∷ []
push ((e, ps) ∷ []) doc position =
    if e == doc then (e, push_position ps position) ∷ [] else (e, ps) ∷ (doc, position ∷ []) ∷ []
push (x ∷ y ∷ rest) doc position = x ∷ push (y ∷ rest) doc position

-- `MemPostingList::append`
abbrev pub append : List Posting → List Posting → List Posting
append postings other = postings ++ other

pub record MemPostingCursor : Type 0 where
  pub postings : List Posting
  pub idx : ℕ

-- `postings[i].doc`; the code reads it only in bounds.
unfoldable pub doc_at : List Posting → ℕ → ℕ
doc_at [] i = 0
doc_at ((d, ps) ∷ rest) zero = d
doc_at ((d, ps) ∷ rest) (suc i) = doc_at rest i

-- `postings.partition_point(|p| p.doc < target)`
unfoldable pub partition_point : ℕ → List Posting → ℕ
partition_point target [] = 0
partition_point target ((d, ps) ∷ rest) =
    if ltb d target then suc (partition_point target rest) else 0

unfoldable pub doc : MemPostingCursor → Option ℕ
doc c = elim (get_elem? c.postings c.idx) [ none ↦ none | some (d, ps) ↦ some d ]

unfoldable pub advance : MemPostingCursor → MemPostingCursor
advance c = if ltb c.idx (length c.postings) then record c { idx = c.idx + 1 } else c

-- The doubling loop of `seek`: `lo`, `step` and `hi`.
unfoldable pub gallop : ℕ → List Posting → ℕ → ℕ → ℕ → ℕ → ℕ × ℕ
unfolding doc_at
gallop zero postings target lo step hi = (lo, hi)
gallop (suc f) postings target lo step hi =
    let further = gallop f postings target hi (step * 2) (hi + step * 2) in
    if ltb hi (length postings) && ltb (doc_at postings hi) target then further else (lo, hi)

-- The search in the last interval.
unfoldable pub settle : List Posting → ℕ → ℕ × ℕ → ℕ
unfolding partition_point
settle postings target (lo, hi) =
    lo
    + 1
    + partition_point target (take (min hi (length postings) - (lo + 1)) (drop (lo + 1) postings))

-- Each doubling moves `hi` on, so there are fewer rounds than postings.
unfoldable pub seek : MemPostingCursor → ℕ → MemPostingCursor
unfolding doc_at gallop settle
seek c target =
    if ltb c.idx (length c.postings)
    then (if leb target (doc_at c.postings c.idx) then c else record c {
      idx =
          settle c.postings target
            (gallop (length c.postings) c.postings target c.idx 1 (c.idx + 1));
    })
    else c

-- The slice that `positions` returns; with no current posting the code panics.
unfoldable pub positions : MemPostingCursor → Option (List ℕ)
positions c = elim (get_elem? c.postings c.idx) [ none ↦ none | some (d, ps) ↦ some ps ]

-- `MemTermStore`: a map from terms to posting lists, of which only the entries count.
abbrev pub MemTermStore : Type 0
MemTermStore = List (Text × List Posting)

unfoldable pub get : MemTermStore → Text → Option (List Posting)
unfolding text_eq
get [] term = none
get ((t, l) ∷ m) term = if text_eq t term then some l else get m term

-- The `match` on the entry: append to the list that is there, or insert.
unfoldable pub merge_entry : MemTermStore → Text → List Posting → MemTermStore
unfolding text_eq
merge_entry [] term list = (term, list) ∷ []
merge_entry ((t, l) ∷ m) term list =
    if text_eq t term then (t, append l list) ∷ m else (t, l) ∷ merge_entry m term list

unfoldable pub merge_entries : MemTermStore → MemTermStore → MemTermStore
unfolding merge_entry
merge_entries terms [] = terms
merge_entries terms ((term, list) ∷ shard) = merge_entries (merge_entry terms term list) shard

unfoldable pub merge_shard : MemTermStore → MemTermStore → MemTermStore
unfolding merge_entries
merge_shard [] shard = shard
merge_shard (e ∷ terms) shard = merge_entries (e ∷ terms) shard

unfoldable pub total_postings : MemTermStore → ℕ
total_postings [] = 0
total_postings ((t, l) ∷ m) = length l + total_postings m
