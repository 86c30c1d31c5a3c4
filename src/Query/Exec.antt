-- ===== src/Query/Exec.antt =====
-- src/query/exec.rs: evaluation of a query tree, segment by segment.
pub mod Term
pub mod Phrase
pub mod Leapfrog
pub mod Rounds
pub mod Phrases
pub mod Matches
pub mod Tree
pub mod Segments
pub mod Terms
pub mod Describes
use ripindex.Common.{
  ℕ, zero, suc, ◌+◌, ◌*◌, ◌%◌, ◌^◌, Bool, true, false, not, ◌&&◌, ◌||◌, Option, none, some, List,
  [], ◌∷◌, ◌++◌, length, map, ltb, leb, ◌==◌, if◌then◌else◌,
}
use ripindex.Query.Syntax.{Text, Node, Nodes, nil, cons, text_eq}
use ripindex.Query.Source.{PostingSource, Segment, Bm25, IndexReader}
use ripindex.Query.Hits.{Hit, is_empty, difference, union, intersect}

-- `slice.contains`
unfoldable pub contains : List ℕ → ℕ → Bool
contains [] a = false
contains (x ∷ xs) a = (x == a) || contains xs a

-- Whether the terms from the `k`-th on stand behind the position `p0`, each in its place. The
-- positions are in order, a law of `PostingSource`, and `binary_search` on such a slice is `ok` for
-- what it contains.
unfoldable pub follows : ℕ → ℕ → List (List ℕ) → Bool
unfolding contains
follows p0 k [] = true
follows p0 k (ps ∷ rest) =
    (ltb (p0 + (k + 1)) (2 ^ 32) && contains ps (p0 + (k + 1))) && follows p0 (k + 1) rest

unfoldable pub count_where : (ℕ → Bool) → List ℕ → ℕ
count_where test [] = 0
count_where test (x ∷ xs) = if test x then suc (count_where test xs) else count_where test xs

unfoldable pub phrase_matches : List (List ℕ) → ℕ
unfolding follows count_where
phrase_matches [] = 0
phrase_matches (first ∷ rest) = count_where (λ p0. follows p0 0 rest) first

-- A map with the terms of a query as keys.
unfoldable pub get_term {ℓ} : {A : Type ℓ} → Text → List (Text × A) → Option A
unfolding text_eq
get_term t [] = none
get_term t ((u, a) ∷ m) = if text_eq u t then some a else get_term t m

unfoldable pub has_term : Text → List Text → Bool
unfolding text_eq
has_term t [] = false
has_term t (u ∷ us) = text_eq u t || has_term t us

-- `add` in `query_terms`
unfoldable pub add_term : Text → List Text → List Text
unfolding has_term
add_term t out = if has_term t out then out else out ++ (t ∷ [])

unfoldable pub add_terms : List Text → List Text → List Text
unfolding add_term
add_terms [] out = out
add_terms (t ∷ ts) out = add_terms ts (add_term t out)

unfoldable mutual
  unfolding add_term add_terms

  pub query_terms : Node → List Text → List Text
  query_terms (Node.term t) out = add_term t out
  query_terms (Node.phrase ts) out = add_terms ts out
  query_terms (Node.and must must_not) out = all_terms must_not (all_terms must out)
  query_terms (Node.or ns) out = all_terms ns out

  pub all_terms : Nodes → List Text → List Text
  all_terms nil out = out
  all_terms (cons n ns) out = all_terms ns (query_terms n out)

module _ (source : PostingSource) (bm25 : Bm25) where
  open source use {PostingList, Cursor, doc_freq, cursor, doc, advance, seek, positions, term_freq}
  open bm25 use {Score, plus, sum, idf, rate}

  abbrev pub Lists : Type 0
  Lists = List (Text × PostingList)

  -- `Stats`
  pub record Stats : Type 0 where
    pub n : ℕ
    pub avg_len : Score
    pub df : List (Text × ℕ)

  -- `stats.df[term]`, which has every term of the query.
  unfoldable pub df_of : Stats → Text → ℕ
  unfolding get_term
  df_of stats t = elim (get_term t stats.df) [ some n ↦ n | none ↦ 0 ]

  module _ (seg : Segment source) (avg_len : Score) where
    -- The `while` loop of `eval_term`.
    unfoldable pub term_loop : ℕ → Score → Cursor → List (Hit Score)
    term_loop zero i c = []
    term_loop (suc f) i c = elim (doc c) [
      | none ↦ []
      | some d ↦ elim (seg.doc_len d) [
        | none ↦ term_loop f i (advance c)
        | some len ↦
            record { doc = d; score = rate i (term_freq c).1 len avg_len }
            ∷ term_loop f i (advance (term_freq c).0)
      ]
    ]

    -- The inner loop of `eval_phrase`: the first cursor, those before place `i`, and those from it
    -- on. `none` is `break 'docs`.
    unfoldable pub align :
        ℕ → Cursor → List Cursor → List Cursor → ℕ → Option (Cursor × List Cursor × ℕ)
    align zero first before after target = none
    align (suc f) first before [] target = some (first, before, target)
    align (suc f) first before (c ∷ after) target = elim (doc (seek c target)) [
      | none ↦ none
      | some d ↦ elim (d == target) [
        | true ↦ align f first (before ++ (seek c target ∷ [])) after target
        | false ↦ elim (doc (seek first d)) [
          | none ↦ none
          | some d0 ↦ align f (seek first d) [] (before ++ (seek c target ∷ after)) d0
        ]
      ]
    ]

    -- `cursors.iter_mut().map(|c| c.positions())`
    unfoldable pub all_positions : List Cursor → List Cursor × List (List ℕ)
    all_positions [] = ([], [])
    all_positions (c ∷ cs) =
        ((positions c).0 ∷ (all_positions cs).0, (positions c).1 ∷ (all_positions cs).1)

    -- The outer loop of `eval_phrase`.
    unfoldable pub phrase_loop : ℕ → ℕ → Score → Cursor → List Cursor → List (Hit Score)
    unfolding align all_positions phrase_matches
    phrase_loop zero rounds i first others = []
    phrase_loop (suc f) rounds i first others = elim (doc first) [
      | none ↦ []
      | some d ↦ elim (align rounds first [] others d) [
        | none ↦ []
        | some (first', others', target) ↦ elim (seg.doc_len target) [
          | none ↦ phrase_loop f rounds i (advance first') others'
          | some len ↦
              let later =
                phrase_loop f rounds i (advance (positions first').0) (all_positions others').0 in
              let tf = phrase_matches ((positions first').1 ∷ (all_positions others').1) in
              if ltb 0 tf
              then record { doc = target; score = rate i tf len avg_len } ∷ later
              else later
        ]
      ]
    ]

  module _ (seg : Segment source) (lists : Lists) (stats : Stats) where
    unfoldable pub eval_term : Text → List (Hit Score)
    unfolding get_term df_of term_loop
    eval_term t = elim (get_term t lists) [
      | none ↦ []
      | some l ↦
          term_loop seg stats.avg_len (doc_freq l + 1) (idf stats.n (df_of stats t)) (cursor l)
    ]

    -- The lists of the terms, if there is one for each.
    unfoldable pub all_lists : List Text → Option (List PostingList)
    unfolding get_term
    all_lists [] = some []
    all_lists (t ∷ ts) = elim (get_term t lists) [
      | none ↦ none
      | some l ↦ elim (all_lists ts) [ none ↦ none | some ls ↦ some (l ∷ ls) ]
    ]

    -- The loops, with rounds for each document of the first list and each step of its alignment.
    unfoldable pub run_phrase : Score → List PostingList → List (Hit Score)
    unfolding phrase_loop
    run_phrase i [] = []
    run_phrase i (l ∷ ls) =
        phrase_loop seg stats.avg_len (doc_freq l + 1)
          (doc_freq l * (length ls + 1) + length ls + 1) i (cursor l) (map cursor ls)

    unfoldable pub eval_phrase : List Text → List (Hit Score)
    unfolding eval_term all_lists run_phrase df_of
    eval_phrase [] = []
    eval_phrase (t ∷ []) = eval_term t
    eval_phrase (t ∷ u ∷ ts) = elim (all_lists (t ∷ u ∷ ts)) [
      | none ↦ []
      | some ls ↦ run_phrase (sum (map (λ w. idf stats.n (df_of stats w)) (t ∷ u ∷ ts))) ls
    ]

    unfoldable mutual
      unfolding eval_term eval_phrase difference union intersect

      pub eval_node : Node → List (Hit Score)
      eval_node (Node.term t) = eval_term t
      eval_node (Node.phrase ts) = eval_phrase ts
      eval_node (Node.and must must_not) = elim (eval_musts must) [
        | none ↦ []
        | some acc ↦ exclude (intersect plus acc) must_not
      ]
      eval_node (Node.or ns) = union plus (eval_all ns)

      -- The first loop of a conjunction; `none` is its early return.
      pub eval_musts : Nodes → Option (List (List (Hit Score)))
      eval_musts nil = some []
      eval_musts (cons n ns) = elim (is_empty (eval_node n)) [
        | true ↦ none
        | false ↦ elim (eval_musts ns) [ none ↦ none | some ls ↦ some (eval_node n ∷ ls) ]
      ]

      -- The second loop, which ends when nothing is left.
      pub exclude : List (Hit Score) → Nodes → List (Hit Score)
      exclude result nil = result
      exclude result (cons n ns) = elim (is_empty result) [
        | true ↦ result
        | false ↦ exclude (difference result (eval_node n)) ns
      ]

      pub eval_all : Nodes → List (List (Hit Score))
      eval_all nil = []
      eval_all (cons n ns) = eval_node n ∷ eval_all ns

  -- The lists that a segment has for the terms.
  unfoldable pub look_up : Segment source → List Text → Lists
  look_up seg [] = []
  look_up seg (t ∷ ts) = elim (seg.postings t) [
    | none ↦ look_up seg ts
    | some l ↦ (t, l) ∷ look_up seg ts
  ]

  -- The sum of a term's document frequencies over the segments, in 32 bits.
  unfoldable pub df_sum : Text → List Lists → ℕ
  unfolding get_term
  df_sum t [] = 0
  df_sum t (m ∷ ms) = elim (get_term t m) [
    | none ↦ df_sum t ms
    | some l ↦ (doc_freq l + df_sum t ms) % 2 ^ 32
  ]

  -- `hit.doc += seg.base`, in 32 bits.
  unfoldable pub shift : ℕ → List (Hit Score) → List (Hit Score)
  shift base [] = []
  shift base (h ∷ hs) = record h { doc = (base + h.doc) % 2 ^ 32 } ∷ shift base hs

  -- The loop over the segments.
  unfoldable pub over_segments : Stats → Node → List (Segment source × Lists) → List (Hit Score)
  unfolding eval_node shift
  over_segments stats node [] = []
  over_segments stats node ((seg, lists) ∷ rest) =
      shift seg.base (eval_node seg lists stats node) ++ over_segments stats node rest

  unfoldable pub evaluate : IndexReader source bm25 → Node → List (Hit Score)
  unfolding query_terms look_up df_sum over_segments
  evaluate reader node =
      let terms = query_terms node [] in
      let lookups = map (λ seg. look_up seg terms) reader.segments in
      over_segments
        (record {
          n = reader.indexed_count;
          avg_len = reader.avg_len;
          df = map (λ t. (t, df_sum t lookups)) terms;
        })
        node (map (λ seg. (seg, look_up seg terms)) reader.segments)
