-- ===== src/Query/Exec/Matches.antt =====
-- src/query/exec.rs: what a query says of one document, and that terms and phrases find it.
use ripindex.Common.{
  ℕ, ◌+◌, ◌<◌, ◌≡◌, refl, sym, ap, ◌∙◌, Bool, true, false, not, ◌&&◌, ◌||◌, Option, none, some,
  List, [], ◌∷◌, length, map, arith, ltb, ◌==◌, if◌then◌else◌, Bool-cases, inl, inr, ==_iff,
}
use mathlib.Core.Path.{subst}
use ripindex.Query.Syntax.{Text, Node, Nodes, nil, cons}
use ripindex.Query.Source.{Posting, Ascending, PostingSource, Segment, Bm25}
use ripindex.Query.Hits.{Hit}
use ripindex.Query.Hits.Lookup.{is_some, Rising, found}
use ripindex.Query.Exec.{Lists, Stats, get_term, phrase_matches, all_lists, eval_term, eval_phrase}
use ripindex.Query.Exec.Term.{term_hits, hits_of, eval_term_lem}
use ripindex.Query.Exec.Phrase.{
  positions_at, positions_at-below, gather, push_positions, at_document, phrase_hit, phrase_hits,
}
use ripindex.Query.Exec.Phrases.{phrase_of, phrase_idf, eval_phrase_lem}

module _ (source : PostingSource) (bm25 : Bm25) (seg : Segment source) where
  open bm25 use {Score}

  -- The document has a length: it is indexed and not deleted.
  abbrev pub is_live : ℕ → Bool
  is_live d = is_some (seg.doc_len d)

  -- The same test is made of the document `e` and of `d`, if they are one.
  live_here : (e d : ℕ) → (e == d) ≡ true → is_live d ≡ is_live e
  live_here e d h = ap (λ k. is_live k) (sym ((==_iff e d).0 h))

  found-term_hits :
      (avg_len i : Score) (d lo : ℕ) (q : List Posting)
      → Ascending lo q
      → found d (term_hits source bm25 seg avg_len i q) ≡ (is_some (positions_at d q) && is_live d)
  found-term_hits avg_len i d lo [] a = refl
  found-term_hits avg_len i d lo ((e, ps) ∷ q) a =
      round (seg.doc_len e) (is_live d) (live_here e d) (positions_at d q)
        (term_hits source bm25 seg avg_len i q)
        (λ h. positions_at-below (e + 1) d q (omega arith) a.1)
        (found-term_hits avg_len i d (e + 1) q a.1)
    where
      round :
          (live : Option ℕ) (here : Bool)
          → ((e == d) ≡ true → here ≡ is_some live)
          → (there : Option (List ℕ)) (later : List (Hit Score)) → (d < e + 1 → there ≡ none)
          → found d later ≡ (is_some there && here)
          → found d (elim live [
            | none ↦ later
            | some len ↦ record { doc = e; score = bm25.rate i (length ps) len avg_len } ∷ later
          ])
            ≡ (is_some (if e == d then some ps else there) && here)
      round none here same there later below ih = elim (Bool-cases (e == d)) [
        | inl eq ↦
            rw (eq, same eq)
              (ih ∙ ap (λ o. is_some o && here) (below (omega (arith, (==_iff e d).0 eq))))
        | inr ne ↦ rw ne ih
      ]
      round (some len) here same there later below ih = elim (Bool-cases (e == d)) [
        | inl eq ↦ rw (eq, same eq) refl
        | inr ne ↦ rw ne ih
      ]

  -- The document is live, and the terms stand behind each other at these positions.
  abbrev pub phrase_here : ℕ → Option (List (List ℕ)) → Bool
  phrase_here d none = false
  phrase_here d (some pss) = is_live d && ltb 0 (phrase_matches pss)

  found-phrase_hits :
      (avg_len i : Score) (d lo : ℕ) (q : List Posting) (qs : List (List Posting))
      → Ascending lo q
      → found d (phrase_hits source bm25 seg avg_len i q qs) ≡ phrase_here d (gather d (q ∷ qs))
  found-phrase_hits avg_len i d lo [] qs a = refl
  found-phrase_hits avg_len i d lo ((e, ps) ∷ q) qs a =
      let ih = found-phrase_hits avg_len i d (e + 1) q qs a.1 in
      let later = phrase_hits source bm25 seg avg_len i q qs in
      elim (Bool-cases (e == d)) [
        | inl eq ↦
            let same = (==_iff e d).0 eq in
            let gone = positions_at-below (e + 1) d q (omega (arith, same)) a.1 in
            rw eq (
              at_here (gather e qs) later eq
                (ih ∙ ap (λ o. phrase_here d (push_positions o (gather d qs))) gone)
              ∙ ap (λ k. phrase_here k (push_positions (some ps) (gather k qs))) same)
        | inr ne ↦ rw ne (at_other (gather e qs) later ne ∙ ih)
      ]
    where
      at_here :
          (o : Option (List (List ℕ))) (later : List (Hit Score))
          → (e == d) ≡ true
          → found d later ≡ false
          → found d (at_document source bm25 seg avg_len i e ps o later)
            ≡ phrase_here e (push_positions (some ps) o)
      at_here none later eq f = f
      at_here (some pss) later eq f = go (seg.doc_len e)
        where
          go :
              (live : Option ℕ)
              → found d (phrase_hit source bm25 seg avg_len i e (ps ∷ pss) live later)
                ≡ (is_some live && ltb 0 (phrase_matches (ps ∷ pss)))
          go none = f
          go (some len) = ground (arith, eq, f)

      at_other :
          (o : Option (List (List ℕ))) (later : List (Hit Score))
          → (e == d) ≡ false
          → found d (at_document source bm25 seg avg_len i e ps o later) ≡ found d later
      at_other none later ne = refl
      at_other (some pss) later ne = go (seg.doc_len e)
        where
          go :
              (live : Option ℕ)
              → found d (phrase_hit source bm25 seg avg_len i e (ps ∷ pss) live later)
                ≡ found d later
          go none = refl
          go (some len) = ground (arith, ne)

module _ (source : PostingSource) (bm25 : Bm25) (seg : Segment source) (lists : Lists source bm25)
    (stats : Stats source bm25) where
  open bm25 use {Score, plus}

  -- The document is in the term's list, and live.
  abbrev pub has_term_at : ℕ → Option (PostingSource.PostingList source) → Bool
  has_term_at d none = false
  has_term_at d (some l) = is_some (positions_at d (source.holds l)) && is_live source bm25 seg d

  -- The document is in the lists of all the terms, and they stand behind each other in it.
  abbrev pub has_phrase_at : ℕ → Option (List (PostingSource.PostingList source)) → Bool
  has_phrase_at d none = false
  has_phrase_at d (some []) = false
  has_phrase_at d (some (l ∷ ls)) =
      phrase_here source bm25 seg d (gather d (map source.holds (l ∷ ls)))

  abbrev pub phrase_matches_at : ℕ → List Text → Bool
  phrase_matches_at d [] = false
  phrase_matches_at d (t ∷ []) = has_term_at d (get_term t lists)
  phrase_matches_at d (t ∷ u ∷ ts) =
      has_phrase_at d (all_lists source bm25 seg lists stats (t ∷ u ∷ ts))

  abbrev pub has_nodes : Nodes → Bool
  has_nodes nil = false
  has_nodes (cons n ns) = true

  -- What a query means of one document.
  unfoldable mutual
    pub matches : ℕ → Node → Bool
    matches d (Node.term t) = has_term_at d (get_term t lists)
    matches d (Node.phrase ts) = phrase_matches_at d ts
    matches d (Node.and must must_not) =
        (has_nodes must && all_match d must) && not (any_match d must_not)
    matches d (Node.or ns) = any_match d ns

    pub all_match : ℕ → Nodes → Bool
    all_match d nil = true
    all_match d (cons n ns) = matches d n && all_match d ns

    pub any_match : ℕ → Nodes → Bool
    any_match d nil = false
    any_match d (cons n ns) = matches d n || any_match d ns

  -- A list of hits in the order of their documents, which are those that pass the test.
  pub record Finds (hits : List (Hit Score)) (test : ℕ → Bool) : Type 0 where
    pub rising : Rising 0 hits
    pub exact : (d : ℕ) → found d hits ≡ test d

  pub eval_term-Finds :
      (t : Text)
      → Finds (eval_term source bm25 seg lists stats t) (λ d. has_term_at d (get_term t lists))
  eval_term-Finds t =
      let (same, rise) = eval_term_lem source bm25 seg lists stats t in
      record {
        rising = subst (Rising 0) (sym same) rise;
        exact = λ d. ap (found d) same ∙ go d (get_term t lists);
      }
    where
      go :
          (d : ℕ) (o : Option (PostingSource.PostingList source))
          → found d (hits_of source bm25 seg lists stats t o) ≡ has_term_at d o
      go d none = refl
      go d (some l) =
          found-term_hits source bm25 seg _ _ d 0 (source.holds l) (source.holds-Ascending l)

  pub eval_phrase-Finds :
      (ts : List Text)
      → Finds (eval_phrase source bm25 seg lists stats ts) (λ d. phrase_matches_at d ts)
  eval_phrase-Finds [] = unfold eval_phrase in record { rising = tt; exact = λ d. refl }
  eval_phrase-Finds (t ∷ []) = unfold eval_phrase in eval_term-Finds t
  eval_phrase-Finds (t ∷ u ∷ ts) =
      let (same, rise) = eval_phrase_lem source bm25 seg lists stats t u ts in
      record {
        rising = rise;
        exact = λ d.
            ap (found d) same
            ∙ go d (phrase_idf source bm25 seg lists stats (t ∷ u ∷ ts))
                (all_lists source bm25 seg lists stats (t ∷ u ∷ ts));
      }
    where
      go :
          (d : ℕ) (i : Score) (o : Option (List (PostingSource.PostingList source)))
          → found d (phrase_of source bm25 seg lists stats i o) ≡ has_phrase_at d o
      go d i none = refl
      go d i (some []) = refl
      go d i (some (l ∷ ls)) =
          found-phrase_hits source bm25 seg stats.avg_len i d 0 (source.holds l)
            (map source.holds ls) (source.holds-Ascending l)
