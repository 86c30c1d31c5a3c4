-- ===== src/Query/Exec/Term.antt =====
-- src/query/exec.rs, `eval_term`: the loop over a cursor gives a hit for each posting of a live
-- document.
use ripindex.Common.{
  ℕ, zero, suc, ◌+◌, ◌<◌, ◌≡◌, refl, ap, Option, none, some, List, [], ◌∷◌, length, arith,
}
use ripindex.Query.Syntax.{Text}
use ripindex.Query.Source.{Posting, Ascending, PostingSource, Segment, Bm25}
use ripindex.Query.Hits.{Hit}
use ripindex.Query.Hits.Lookup.{Rising, Rising-from}
use ripindex.Query.Exec.{Lists, Stats, get_term, df_of, term_loop, eval_term}

module _ (source : PostingSource) (bm25 : Bm25) (seg : Segment source)
    (avg_len : Bm25.Score bm25) where
  open source use {Cursor, Stands}
  open bm25 use {Score, rate}

  -- A hit for each posting whose document has a length.
  abbrev pub term_hits : Score → List Posting → List (Hit Score)
  term_hits i [] = []
  term_hits i ((d, ps) ∷ rest) = elim (seg.doc_len d) [
    | none ↦ term_hits i rest
    | some len ↦ record { doc = d; score = rate i (length ps) len avg_len } ∷ term_hits i rest
  ]

  term_loop-eq :
      (f : ℕ) (i : Score) (c : Cursor) (postings : List Posting)
      → length postings < f
      → Stands c postings
      → term_loop source bm25 seg avg_len f i c ≡ term_hits i postings
  unfolding term_loop
  term_loop-eq zero i c postings h s = absurd (omega arith)
  term_loop-eq (suc f) i c [] h s = rw (source.doc-end c s, term_loop) refl
  term_loop-eq (suc f) i c ((d, ps) ∷ rest) h s =
      rw (source.doc-here c d ps rest s, term_loop)
        (round (λ c' s'. term_loop-eq f i c' rest (omega arith) s') (seg.doc_len d))
    where
      counted : (source.term_freq c).1 ≡ length ps
      counted = (source.term_freq-here c d ps rest s).1

      round :
          ((c' : Cursor)
            → Stands c' rest
            → term_loop source bm25 seg avg_len f i c' ≡ term_hits i rest)
          → (live : Option ℕ)
          → elim live [
            | none ↦ term_loop source bm25 seg avg_len f i (source.advance c)
            | some len ↦
                record { doc = d; score = rate i (source.term_freq c).1 len avg_len }
                ∷ term_loop source bm25 seg avg_len f i (source.advance (source.term_freq c).0)
          ]
            ≡ elim live [
              | none ↦ term_hits i rest
              | some len ↦
                  record { doc = d; score = rate i (length ps) len avg_len } ∷ term_hits i rest
            ]
      round ih none = ih (source.advance c) (source.advance-Stands c d ps rest s)
      round ih (some len) = rw counted (
          ap (λ hits. record { doc = d; score = rate i (length ps) len avg_len } ∷ hits)
            (ih _ (source.advance-Stands _ d ps rest (source.term_freq-here c d ps rest s).0)))

  term_hits-Rising :
      (i : Score) (lo : ℕ) (postings : List Posting)
      → Ascending lo postings
      → Rising lo (term_hits i postings)
  term_hits-Rising i lo [] a = tt
  term_hits-Rising i lo ((d, ps) ∷ rest) a =
      let ih = term_hits-Rising i (d + 1) rest a.1 in go ih (seg.doc_len d)
    where
      go :
          Rising (d + 1) (term_hits i rest)
          → (live : Option ℕ)
          → Rising lo (elim live [
            | none ↦ term_hits i rest
            | some len ↦
                record { doc = d; score = rate i (length ps) len avg_len } ∷ term_hits i rest
          ])
      go ih none = Rising-from lo (d + 1) (term_hits i rest) (omega arith) ih
      go ih (some len) = (a.0, ih)

module _ (source : PostingSource) (bm25 : Bm25) (seg : Segment source) (lists : Lists source bm25)
    (stats : Stats source bm25) where
  -- The hits of a term that a segment may have a list for.
  abbrev pub hits_of :
      Text → Option (PostingSource.PostingList source) → List (Hit (Bm25.Score bm25))
  hits_of t none = []
  hits_of t (some l) =
      term_hits source bm25 seg stats.avg_len (bm25.idf stats.n (df_of source bm25 stats t))
        (source.holds l)

  -- `eval_term` gives a hit for each posting of the term whose document has a length, in the order
  -- of the documents, rated by the number of its positions, and none if there is no list.
  pub eval_term_lem :
      (t : Text)
      → (eval_term source bm25 seg lists stats t ≡ hits_of t (get_term t lists))
        × Rising 0 (hits_of t (get_term t lists))
  unfolding eval_term
  eval_term_lem t = go (get_term t lists)
    where
      go :
          (o : Option (PostingSource.PostingList source))
          → (elim o [
            | none ↦ []
            | some l ↦
                term_loop source bm25 seg stats.avg_len
                  (source.doc_freq l + 1)
                  (bm25.idf stats.n (df_of source bm25 stats t))
                  (source.cursor l)
          ]
              ≡ hits_of t o)
            × Rising 0 (hits_of t o)
      go none = (refl, tt)
      go (some l) =
          let i = bm25.idf stats.n (df_of source bm25 stats t) in
          let same =
            term_loop-eq source bm25 seg stats.avg_len (source.doc_freq l + 1) i (source.cursor l)
              (source.holds l) (omega (arith, source.doc_freq-holds l)) (source.cursor-Stands l) in
          (
            same,
            (term_hits-Rising source bm25 seg stats.avg_len i 0 (source.holds l)
                (source.holds-Ascending l)),
          )
