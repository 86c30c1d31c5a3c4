-- ===== src/Tests/Exec.antt =====
-- src/query/exec.rs, on an index of two segments in memory, with numbers as scores.
use ripindex.Common.{
  ℕ, ◌+◌, ◌*◌, ◌≤◌, ◌≡◌, refl, true, false, Option, none, some, List, [], ◌∷◌, ltb, if◌then◌else◌,
  arith, All,
}
use ripindex.Index.Postings.{Posting, Ascending, InOrder, PostingSource}
use ripindex.Index.Memory.Gallop.{mem_source}
use ripindex.Query.Syntax.{Text, text_eq, Node, nil, cons}
use ripindex.Query.Source.{Segment, Bm25, IndexReader}
use ripindex.Query.Hits.{Hit, intersect, sort_by_len}
use ripindex.Query.Hits.Lookup.{Rising, lookup, found}
use ripindex.Query.Hits.Intersect.{meet_of, in_all, intersect_lem}
use ripindex.Query.Exec.{
  has_term, Lists, Stats, all_lists, look_up, query_terms, eval_phrase, eval_node, evaluate,
}
use ripindex.Query.Highlight.{positive, Distinct, highlight_terms, highlight_terms_lem}
use ripindex.Query.Exec.Phrases.{phrase_of, phrase_idf, eval_phrase_lem}
use ripindex.Query.Exec.Describes.{describes}
use ripindex.Query.Exec.Tree.{eval_node_lem}
use ripindex.Query.Exec.Segments.{in_segment, stats_of, evaluate_lem}
use ripindex.Query.Exec.Terms.{names, get_term-query_terms}

abbrev low_hits : List (Hit ℕ)
low_hits = record { doc = 1; score = 5 } ∷ record { doc = 4; score = 2 } ∷ []

abbrev high_hits : List (Hit ℕ)
high_hits = record { doc = 4; score = 7 } ∷ record { doc = 6; score = 1 } ∷ []

low_hits-Rising : Rising 0 low_hits
low_hits-Rising = (omega arith, (omega arith, tt))

high_hits-Rising : Rising 0 high_hits
high_hits-Rising = (omega arith, (omega arith, tt))

abbrev two_lists : List (List (Hit ℕ))
two_lists = low_hits ∷ high_hits ∷ []

two_lists-Rising : All (Rising 0) two_lists
two_lists-Rising = (low_hits-Rising, (high_hits-Rising, tt))

abbrev add : ℕ → ℕ → ℕ
add a b = a + b

intersect_lem_example :
    Rising 0 (intersect add two_lists)
    × (lookup 4 (intersect add two_lists) ≡ meet_of add 4 (sort_by_len two_lists))
    × (found 4 (intersect add two_lists) ≡ in_all add 4 two_lists)
intersect_lem_example = intersect_lem add 0 4 two_lists two_lists-Rising

abbrev total : List ℕ → ℕ
total [] = 0
total (n ∷ ns) = n + total ns

abbrev toy_bm25 : Bm25
toy_bm25 = record {
  Score = ℕ;
  plus = add;
  sum = total;
  idf = λ n df. 2 * n + df;
  rate = λ i tf len avg. i + tf + len + avg;
}

abbrev fox : Text
fox = 102 ∷ 111 ∷ 120 ∷ []

abbrev dog : Text
dog = 100 ∷ 111 ∷ 103 ∷ []

abbrev fox_list : List Posting
fox_list = (0, 1 ∷ 5 ∷ []) ∷ (2, 3 ∷ []) ∷ []

abbrev dog_list : List Posting
dog_list = (0, 2 ∷ []) ∷ (1, 0 ∷ []) ∷ (2, 8 ∷ []) ∷ []

fox_list-Ascending : Ascending 0 fox_list
fox_list-Ascending = (omega arith, (omega arith, tt))

dog_list-Ascending : Ascending 0 dog_list
dog_list-Ascending = (omega arith, (omega arith, (omega arith, tt)))

fox_list-InOrder : All (λ posting. InOrder 0 posting.1) fox_list
fox_list-InOrder = ((omega arith, (omega arith, tt)), ((omega arith, tt), tt))

dog_list-InOrder : All (λ posting. InOrder 0 posting.1) dog_list
dog_list-InOrder = ((omega arith, tt), ((omega arith, tt), ((omega arith, tt), tt)))

abbrev length_below : ℕ → ℕ → Option ℕ
length_below n d = if ltb d n then some 9 else none

length_below-none : (n d : ℕ) → n ≤ d → length_below n d ≡ none
length_below-none n d h = ground arith

abbrev lists_here : Text → Option (PostingSource.PostingList mem_source)
lists_here t =
    if text_eq t fox
    then some (fox_list, fox_list-Ascending, fox_list-InOrder)
    else if text_eq t dog
    then some (dog_list, dog_list-Ascending, dog_list-InOrder)
    else none

abbrev segment_at : ℕ → Segment mem_source
segment_at base = record {
  base = base;
  num_docs = 3;
  postings = lists_here;
  doc_len = length_below 3;
  doc_len-bound = length_below-none 3;
}

abbrev toy_reader : IndexReader mem_source toy_bm25
toy_reader = record { segments = segment_at 0 ∷ segment_at 3 ∷ []; indexed_count = 6; avg_len = 9 }

-- "fox dog" OR (dog -fox)
abbrev toy_query : Node
toy_query = Node.or (
    cons (Node.phrase (fox ∷ dog ∷ []))
      (cons (Node.and (cons (Node.term dog) nil) (cons (Node.term fox) nil)) nil))

abbrev toy_stats : Stats mem_source toy_bm25
toy_stats = stats_of mem_source toy_bm25 toy_reader toy_query

abbrev toy_lists : Lists mem_source toy_bm25
toy_lists =
    (fox, (fox_list, fox_list-Ascending, fox_list-InOrder))
    ∷ (dog, (dog_list, dog_list-Ascending, dog_list-InOrder))
    ∷ []

eval_phrase_lem_example :
    (eval_phrase mem_source toy_bm25 (segment_at 0) toy_lists toy_stats (fox ∷ dog ∷ [])
      ≡ phrase_of mem_source toy_bm25
          (segment_at 0)
          toy_lists
          toy_stats
          (phrase_idf mem_source toy_bm25 (segment_at 0) toy_lists toy_stats (fox ∷ dog ∷ []))
          (all_lists mem_source toy_bm25 (segment_at 0) toy_lists toy_stats (fox ∷ dog ∷ [])))
    × Rising 0 (eval_phrase mem_source toy_bm25 (segment_at 0) toy_lists toy_stats (fox ∷ dog ∷ []))
eval_phrase_lem_example =
    eval_phrase_lem mem_source toy_bm25 (segment_at 0) toy_lists toy_stats fox dog []

abbrev found_lists : Lists mem_source toy_bm25
found_lists = look_up mem_source toy_bm25 (segment_at 0) (query_terms toy_query [])

eval_node_lem_example :
    Rising 0 (eval_node mem_source toy_bm25 (segment_at 0) found_lists toy_stats toy_query)
    × (found 1 (eval_node mem_source toy_bm25 (segment_at 0) found_lists toy_stats toy_query)
        ≡ describes mem_source (segment_at 0) 1 toy_query)
eval_node_lem_example =
    eval_node_lem mem_source toy_bm25 (segment_at 0) found_lists toy_stats 1 toy_query
      (λ t h. get_term-query_terms mem_source toy_bm25 (segment_at 0) t toy_query h)

-- Documents 0 and 1 are described, and 2 is not.
toy_query-describes :
    (describes mem_source (segment_at 0) 0 toy_query ≡ true)
    × (describes mem_source (segment_at 0) 1 toy_query ≡ true)
    × (describes mem_source (segment_at 0) 2 toy_query ≡ false)
unfolding describes text_eq
toy_query-describes = (refl, refl, refl)

evaluate_lem_example :
    Rising 0 (evaluate mem_source toy_bm25 toy_reader toy_query)
    × (found 4 (evaluate mem_source toy_bm25 toy_reader toy_query)
        ≡ in_segment mem_source toy_bm25 toy_query 4 (toy_reader.segments))
evaluate_lem_example =
    evaluate_lem mem_source toy_bm25 toy_reader toy_query 4
      (omega arith, omega arith, (omega arith, omega arith, tt))

toy_query-names : names dog toy_query ≡ true
unfolding names text_eq
toy_query-names = refl

highlight_terms_lem_example :
    (has_term fox (highlight_terms toy_query) ≡ positive fox toy_query)
    × Distinct (highlight_terms toy_query)
highlight_terms_lem_example = highlight_terms_lem fox toy_query
