-- ===== src/Query/Exec/Segments.antt =====
-- src/query/exec.rs, `evaluate`: the hits of the segments, shifted to global documents and put one
-- behind the other.
use ripindex.Common.{
  ℕ, ◌+◌, ◌-◌, ◌≤◌, ◌<◌, ◌≡◌, refl, ap, ◌∙◌, Bool, true, false, ◌&&◌, ◌||◌, Option, none, some,
  List, [], ◌∷◌, ◌++◌, map, arith, leb, ◌==◌, All, Bool-cases, inl, inr, leb→le, ◌^◌, ◌%◌,
}
use mathlib.Core.Path.{subst}
use ripindex.Query.Syntax.{Text, Node, Nodes, nil, cons}
use ripindex.Query.Source.{PostingSource, Segment, Bm25, IndexReader}
use ripindex.Query.Hits.{Hit}
use ripindex.Query.Hits.Lookup.{is_some, Rising, Rising-from, found}
use ripindex.Query.Exec.{
  Lists, Stats, get_term, all_lists, query_terms, look_up, df_sum, shift, over_segments, evaluate,
  eval_node,
}
use ripindex.Query.Exec.Phrase.{gather, positions_at}
use ripindex.Query.Exec.Matches.{
  is_live, phrase_here, has_term_at, has_phrase_at, phrase_matches_at, matches, any_match,
}
use ripindex.Query.Exec.Terms.{get_term-query_terms}
use ripindex.Query.Exec.Describes.{describes}
use ripindex.Query.Exec.Tree.{eval_node-matches, eval_node_lem}

module _ {S : Type 0} where
  Below : ℕ → List (Hit S) → Type 0
  Below n hits = All (λ h. h.doc < n) hits

  none_above-Below :
      (n : ℕ) (hits : List (Hit S)) → ((d : ℕ) → n ≤ d → found d hits ≡ false) → Below n hits
  unfolding Below
  none_above-Below n [] gone = tt
  none_above-Below n (h ∷ hs) gone =
      (head (gone h.doc), none_above-Below n hs (λ d le. tail d (gone d le)))
    where
      head : (n ≤ h.doc → found h.doc (h ∷ hs) ≡ false) → h.doc < n
      head e = elim (Bool-cases (leb n h.doc)) [
        | inl le ↦ absurd (hit (e (leb→le n h.doc le)))
        | inr less ↦ ground (arith, less)
      ]
        where
          hit : found h.doc (h ∷ hs) ≡ false → ⊥
          hit f = ground (arith, f)

      tail : (d : ℕ) → found d (h ∷ hs) ≡ false → found d hs ≡ false
      tail d e = ground (arith, e)

  Rising-append :
      (lo mid : ℕ) (a b : List (Hit S))
      → lo ≤ mid
      → Rising lo a
      → Below mid a
      → Rising mid b
      → Rising lo (a ++ b)
  unfolding Below
  Rising-append lo mid [] b h ra l rb = Rising-from lo mid b h rb
  Rising-append lo mid (x ∷ xs) b h ra l rb =
      (ra.0, Rising-append (x.doc + 1) mid xs b (omega (arith, l.0)) ra.1 l.1 rb)

  found-append : (d : ℕ) (a b : List (Hit S)) → found d (a ++ b) ≡ (found d a || found d b)
  found-append d [] b = refl
  found-append d (x ∷ xs) b = elim (Bool-cases (x.doc == d)) [
    | inl e ↦ rw e
    | inr e ↦ rw e (found-append d xs b)
  ]

module _ (source : PostingSource) (bm25 : Bm25) where
  open bm25 use {Score}

  -- The hits with their documents moved up.
  abbrev offset : ℕ → List (Hit Score) → List (Hit Score)
  offset base [] = []
  offset base (h ∷ hs) = record h { doc = base + h.doc } ∷ offset base hs

  -- Below the bound of 32 bits nothing wraps.
  shift-offset :
      (base n : ℕ) (hits : List (Hit Score))
      → base + n ≤ 2 ^ 32
      → Below n hits
      → shift source bm25 base hits ≡ offset base hits
  unfolding shift Below
  shift-offset base n [] fit l = refl
  shift-offset base n (h ∷ hs) fit l =
      rw (small (base + h.doc) (omega (arith, l.0)))
        (ap (λ t. record h { doc = base + h.doc } ∷ t) (shift-offset base n hs fit l.1))
    where
      small : (m : ℕ) → m < 2 ^ 32 → m % 2 ^ 32 ≡ m
      small m h = omega arith

  offset-Rising :
      (base lo : ℕ) (hits : List (Hit Score))
      → Rising lo hits
      → Rising (base + lo) (offset base hits)
  offset-Rising base lo [] r = tt
  offset-Rising base lo (h ∷ hs) r =
      (omega (arith, r.0), rw (add_one base h.doc) (offset-Rising base (h.doc + 1) hs r.1))
    where
      add_one : (a b : ℕ) → a + b + 1 ≡ a + (b + 1)
      add_one a b = omega arith

  offset-Below :
      (base n : ℕ) (hits : List (Hit Score)) → Below n hits → Below (base + n) (offset base hits)
  unfolding Below
  offset-Below base n [] l = tt
  offset-Below base n (h ∷ hs) l = (omega (arith, l.0), offset-Below base n hs l.1)

  found-offset :
      (base d : ℕ) (hits : List (Hit Score))
      → found d (offset base hits) ≡ (leb base d && found (d - base) hits)
  found-offset base d [] = ground arith
  found-offset base d (h ∷ hs) = ground (arith, found-offset base d hs)

  module _ (seg : Segment source) (lists : Lists source bm25) (stats : Stats source bm25) (d : ℕ)
      (dead : is_live source bm25 seg d ≡ false) where
    dead_term :
        (o : Option (PostingSource.PostingList source))
        → has_term_at source bm25 seg lists stats d o ≡ false
    dead_term none = refl
    dead_term (some l) = rw dead (stop (is_some (positions_at d (source.holds l))))
      where
        stop : (b : Bool) → (b && false) ≡ false
        stop true = refl
        stop false = refl

    dead_phrase :
        (o : Option (List (PostingSource.PostingList source)))
        → has_phrase_at source bm25 seg lists stats d o ≡ false
    dead_phrase none = refl
    dead_phrase (some []) = refl
    dead_phrase (some (l ∷ ls)) = go (gather d (map source.holds (l ∷ ls)))
      where
        go : (o : Option (List (List ℕ))) → phrase_here source bm25 seg d o ≡ false
        go none = refl
        go (some pss) = rw dead refl

    dead_phrase_terms :
        (ts : List Text) → phrase_matches_at source bm25 seg lists stats d ts ≡ false
    dead_phrase_terms [] = refl
    dead_phrase_terms (t ∷ []) = dead_term (get_term t lists)
    dead_phrase_terms (t ∷ u ∷ ts) =
        dead_phrase (all_lists source bm25 seg lists stats (t ∷ u ∷ ts))

    mutual
      unfolding matches

      -- No query describes a document without a length.
      dead_matches : (n : Node) → matches source bm25 seg lists stats d n ≡ false
      dead_matches (Node.term t) = dead_term (get_term t lists)
      dead_matches (Node.phrase ts) = dead_phrase_terms ts
      dead_matches (Node.and nil must_not) = refl
      dead_matches (Node.and (cons n ns) must_not) = rw (dead_matches n) refl
      dead_matches (Node.or ns) = dead_any ns

      dead_any : (ns : Nodes) → any_match source bm25 seg lists stats d ns ≡ false
      dead_any nil = refl
      dead_any (cons n ns) = rw (dead_matches n, dead_any ns) refl

  -- The segments own ascending ranges of documents of 32 bits, from `lo` on.
  abbrev pub Laid : ℕ → List (Segment source) → Type 0
  Laid lo [] = Unit
  Laid lo (seg ∷ rest) =
      (lo ≤ seg.base) × (seg.base + seg.num_docs ≤ 2 ^ 32) × Laid (seg.base + seg.num_docs) rest

  -- A segment has the document, under its local id, and the query describes it there.
  abbrev pub in_segment : Node → ℕ → List (Segment source) → Bool
  in_segment node d [] = false
  in_segment node d (seg ∷ rest) =
      (leb seg.base d && describes source seg (d - seg.base) node) || in_segment node d rest

  module _ (stats : Stats source bm25) (node : Node) where
    -- The lists that `evaluate` looks up in each segment.
    abbrev with_lists : List (Segment source) → List (Segment source × Lists source bm25)
    with_lists segs = map (λ seg. (seg, look_up source bm25 seg (query_terms node []))) segs

    segment-Below :
        (seg : Segment source) (lists : Lists source bm25)
        → Below seg.num_docs (eval_node source bm25 seg lists stats node)
    segment-Below seg lists = none_above-Below seg.num_docs _ (λ d le.
        (eval_node-matches source bm25 seg lists stats d node).1
        ∙ dead_matches seg lists stats d (ap is_some (seg.doc_len-bound d le)) node)

    over_segments_lem :
        (lo d : ℕ) (segs : List (Segment source))
        → Laid lo segs
        → Rising lo (over_segments source bm25 stats node (with_lists segs))
          × (found d (over_segments source bm25 stats node (with_lists segs))
              ≡ in_segment node d segs)
    unfolding over_segments
    over_segments_lem lo d [] l = (tt, refl)
    over_segments_lem lo d (seg ∷ rest) l =
        let lists = look_up source bm25 seg (query_terms node []) in
        let hits = eval_node source bm25 seg lists stats node in
        let local =
          eval_node_lem source bm25 seg lists stats (d - seg.base) node
            (λ t h. get_term-query_terms source bm25 seg t node h) in
        let below = segment-Below seg lists in
        let moved = shift-offset seg.base seg.num_docs hits l.1 below in
        let later = over_segments_lem (seg.base + seg.num_docs) d rest l.2 in
        let zero_on : seg.base + 0 ≡ seg.base = omega arith in
        let shifted =
          subst (λ k. Rising k (offset seg.base hits)) zero_on
            (offset-Rising seg.base 0 hits local.0) in
        rw moved (
          Rising-append lo (seg.base + seg.num_docs) (offset seg.base hits) _ (omega (arith, l.0))
              (Rising-from lo seg.base (offset seg.base hits) l.0 shifted)
              (offset-Below seg.base seg.num_docs hits below) later.0,
          found-append d (offset seg.base hits) _
              ∙ rw (found-offset seg.base d hits, local.1, later.1) refl,
        )

  -- What `evaluate` counts before it looks at a segment.
  abbrev pub stats_of : IndexReader source bm25 → Node → Stats source bm25
  stats_of reader node =
      let terms = query_terms node [] in
      record {
        n = reader.indexed_count;
        avg_len = reader.avg_len;
        df =
            map
              (λ t. (
                t,
                df_sum source bm25 t (map (λ seg. look_up source bm25 seg terms) reader.segments),
              ))
              terms;
      }

  -- Over segments that own ascending ranges of documents of 32 bits, `evaluate` gives hits in the order of the
  -- global documents, each document once, and these are exactly the documents that the query
  -- describes by the postings and lengths of the segment that owns them.
  pub evaluate_lem :
      (reader : IndexReader source bm25) (node : Node) (d : ℕ)
      → Laid 0 reader.segments
      → Rising 0 (evaluate source bm25 reader node)
        × (found d (evaluate source bm25 reader node) ≡ in_segment node d reader.segments)
  unfolding evaluate
  evaluate_lem reader node d l = over_segments_lem (stats_of reader node) node 0 d reader.segments l
