-- ===== src/Query/Exec/Describes.antt =====
-- src/query/exec.rs: what a query says of a document, from the postings of the segment alone.
use ripindex.Common.{
  ℕ, suc, ◌+◌, ◌^◌, ◌≡◌, refl, sym, ap, ◌∙◌, Bool, true, false, not, ◌&&◌, ◌||◌, Option, none, some,
  List, [], ◌∷◌, map, arith, ltb, lt→ltb, ◌==◌, Bool-cases, inl, inr,
}
use ripindex.Query.Syntax.{Text, Node, Nodes, nil, cons, text_eq, text_eq_refl}
use ripindex.Query.Source.{PostingSource, Segment, Bm25}
use ripindex.Query.Hits.Lookup.{is_some}
use ripindex.Query.Exec.{
  Lists, Stats, get_term, contains, follows, count_where, phrase_matches, all_lists,
}
use ripindex.Query.Exec.Phrase.{positions_at, gather, push_positions}
use ripindex.Query.Exec.Terms.{names, all_names, names_any}
use ripindex.Query.Exec.Matches.{
  phrase_here, has_term_at, has_phrase_at, phrase_matches_at, has_nodes, matches, all_match,
  any_match,
}

module _ (source : PostingSource) (seg : Segment source) where
  open source use {PostingList, holds}

  abbrev found_in : ℕ → Option PostingList → Option (List ℕ)
  found_in d none = none
  found_in d (some l) = positions_at d (holds l)

  -- The positions of a term in a document.
  abbrev pub occurrences : ℕ → Text → Option (List ℕ)
  occurrences d t = found_in d (seg.postings t)

  abbrev among : ℕ → List ℕ → Bool
  among p [] = false
  among p (q ∷ qs) = q == p || among p qs

  -- A position has 32 bits.
  abbrev pub stands_at : ℕ → Option (List ℕ) → Bool
  stands_at p none = false
  stands_at p (some ps) = ltb p (2 ^ 32) && among p ps

  -- The terms stand behind each other, the first at `p`.
  abbrev pub in_row : ℕ → ℕ → List Text → Bool
  in_row d p [] = true
  in_row d p (t ∷ ts) = stands_at p (occurrences d t) && in_row d (p + 1) ts

  abbrev row_behind_any : ℕ → List ℕ → List Text → Bool
  row_behind_any d [] ts = false
  row_behind_any d (p ∷ ps) ts = in_row d (p + 1) ts || row_behind_any d ps ts

  abbrev row_from : ℕ → Option (List ℕ) → List Text → Bool
  row_from d none ts = false
  row_from d (some ps) ts = row_behind_any d ps ts

  abbrev pub has_row : ℕ → List Text → Bool
  has_row d [] = false
  has_row d (t ∷ []) = is_some (occurrences d t)
  has_row d (t ∷ u ∷ ts) = row_from d (occurrences d t) (u ∷ ts)

  abbrev pub has_clause : Nodes → Bool
  has_clause nil = false
  has_clause (cons n ns) = true

  -- The document has a length, which only an indexed and not deleted one has, and
  -- it has the term; the terms of the phrase behind each other; every clause of a conjunction, of
  -- which there is one, and no negated one; or some alternative.
  unfoldable mutual
    pub describes : ℕ → Node → Bool
    describes d (Node.term t) = is_some (occurrences d t) && is_some (seg.doc_len d)
    describes d (Node.phrase ts) = has_row d ts && is_some (seg.doc_len d)
    describes d (Node.and must must_not) =
        (has_clause must && describes_all d must) && not (describes_any d must_not)
    describes d (Node.or ns) = describes_any d ns

    pub describes_all : ℕ → Nodes → Bool
    describes_all d nil = true
    describes_all d (cons n ns) = describes d n && describes_all d ns

    pub describes_any : ℕ → Nodes → Bool
    describes_any d nil = false
    describes_any d (cons n ns) = describes d n || describes_any d ns

  among-contains : (p : ℕ) (ps : List ℕ) → contains ps p ≡ among p ps
  unfolding contains
  among-contains p [] = refl
  among-contains p (q ∷ qs) = ap (λ b. q == p || b) (among-contains p qs)

  -- The positions of all terms, if each has some.
  abbrev all_occurrences : ℕ → List Text → Option (List (List ℕ))
  all_occurrences d [] = some []
  all_occurrences d (t ∷ ts) = push_positions (occurrences d t) (all_occurrences d ts)

  abbrev SameRow : ℕ → ℕ → ℕ → List Text → Option (List (List ℕ)) → Type 0
  SameRow d p0 k ts none = in_row d (p0 + (k + 1)) ts ≡ false
  SameRow d p0 k ts (some pss) = follows p0 k pss ≡ in_row d (p0 + (k + 1)) ts

  follows-in_row : (d p0 k : ℕ) (ts : List Text) → SameRow d p0 k ts (all_occurrences d ts)
  unfolding follows
  follows-in_row d p0 k [] = refl
  follows-in_row d p0 k (t ∷ ts) =
      go (occurrences d t) (all_occurrences d ts) (follows-in_row d p0 (k + 1) ts)
    where
      step : p0 + (k + 1 + 1) ≡ p0 + (k + 1) + 1
      step = omega arith

      stop : (b : Bool) → (b && false) ≡ false
      stop true = refl
      stop false = refl

      here : Option (List ℕ) → Bool
      here o = stands_at (p0 + (k + 1)) o && in_row d (p0 + (k + 1) + 1) ts

      Met : Option (List ℕ) → Option (List (List ℕ)) → Type 0
      Met o none = here o ≡ false
      Met o (some pss) = follows p0 k pss ≡ here o

      go :
          (o : Option (List ℕ)) (rest : Option (List (List ℕ)))
          → SameRow d p0 (k + 1) ts rest
          → Met o (push_positions o rest)
      go none rest ih = refl
      go (some ps) none ih =
          rw (sym (ap (λ p. in_row d p ts) step) ∙ ih) (stop (stands_at (p0 + (k + 1)) (some ps)))
      go (some ps) (some pss) ih = rw (among-contains (p0 + (k + 1)) ps) (
          ap (λ b. (ltb (p0 + (k + 1)) (2 ^ 32) && among (p0 + (k + 1)) ps) && b)
            (ih ∙ ap (λ p. in_row d p ts) step))

  abbrev Found : ℕ → List ℕ → List Text → Option (List (List ℕ)) → Type 0
  Found d ps ts none = row_behind_any d ps ts ≡ false
  Found d ps ts (some pss) =
      ltb 0 (count_where (λ p0. follows p0 0 pss) ps) ≡ row_behind_any d ps ts

  follows-Found :
      (d : ℕ) (ts : List Text) (rest : Option (List (List ℕ)))
      → ((p0 : ℕ) → SameRow d p0 0 ts rest)
      → (ps : List ℕ) → Found d ps ts rest
  unfolding count_where
  follows-Found d ts none r [] = refl
  follows-Found d ts none r (p ∷ ps) =
      rw (ap (λ q. in_row d q ts) (one p) ∙ r p) (follows-Found d ts none r ps)
    where
      one : (p : ℕ) → p + 1 ≡ p + (0 + 1)
      one p = omega arith
  follows-Found d ts (some pss) r [] = refl
  follows-Found d ts (some pss) r (p ∷ ps) = elim (Bool-cases (follows p 0 pss)) [
    | inl e ↦ rw e (
        lt→ltb 0 (suc (count_where (λ p0. follows p0 0 pss) ps)) (omega arith)
        ∙ ap (λ b. b || row_behind_any d ps ts) (sym e ∙ r p ∙ ap (λ q. in_row d q ts) (one p)))
    | inr e ↦ rw e (
        follows-Found d ts (some pss) r ps
        ∙ ap (λ b. b || row_behind_any d ps ts) (sym e ∙ r p ∙ ap (λ q. in_row d q ts) (one p)))
  ]
    where
      one : (p : ℕ) → p + (0 + 1) ≡ p + 1
      one p = omega arith

module _ (source : PostingSource) (bm25 : Bm25) (seg : Segment source) (lists : Lists source bm25)
    (stats : Stats source bm25) where
  -- The lists hold the segment's own for the terms.
  abbrev pub Holds : (Text → Bool) → Type 0
  Holds named = (t : Text) → named t ≡ true → get_term t lists ≡ seg.postings t

  abbrev gathered : ℕ → Option (List (PostingSource.PostingList source)) → Option (List (List ℕ))
  gathered d none = none
  gathered d (some ls) = gather d (map source.holds ls)

  abbrev push_list :
      Option (PostingSource.PostingList source)
      → Option (List (PostingSource.PostingList source))
      → Option (List (PostingSource.PostingList source))
  push_list o rest = elim o [
    | none ↦ none
    | some l ↦ elim rest [ none ↦ none | some ls ↦ some (l ∷ ls) ]
  ]

  all_lists-gathered :
      (d : ℕ) (ts : List Text)
      → Holds (λ t. names_any t ts)
      → gathered d (all_lists source bm25 seg lists stats ts) ≡ all_occurrences source seg d ts
  unfolding all_lists
  all_lists-gathered d [] h = refl
  all_lists-gathered d (t ∷ ts) h =
      ap (λ o. gathered d (push_list o (all_lists source bm25 seg lists stats ts)))
        (h t (rw (text_eq_refl t) refl))
      ∙ go (seg.postings t) (all_lists source bm25 seg lists stats ts)
          (all_lists-gathered d ts (λ u k. h u (or_right (text_eq t u) k)))
    where
      or_right : (a : Bool) {b : Bool} → b ≡ true → (a || b) ≡ true
      or_right true k = refl
      or_right false k = k

      stop : (o : Option (List ℕ)) → none ≡ push_positions o none
      stop none = refl
      stop (some ps) = refl

      go :
          (o : Option (PostingSource.PostingList source))
          (rest : Option (List (PostingSource.PostingList source)))
          → gathered d rest ≡ all_occurrences source seg d ts
          → gathered d (push_list o rest)
            ≡ push_positions (found_in source seg d o) (all_occurrences source seg d ts)
      go none rest ih = refl
      go (some l) none ih = rw (← ih) (stop (positions_at d (source.holds l)))
      go (some l) (some ls) ih = ap (push_positions (positions_at d (source.holds l))) ih

  -- The list of a phrase's terms is not empty.
  phrase_here-gathered :
      (d : ℕ) (t : Text) (ts : List Text)
      → has_phrase_at source bm25 seg lists stats d (all_lists source bm25 seg lists stats (t ∷ ts))
        ≡ phrase_here source bm25 seg d
            (gathered d (all_lists source bm25 seg lists stats (t ∷ ts)))
  unfolding all_lists
  phrase_here-gathered d t ts = go (get_term t lists) (all_lists source bm25 seg lists stats ts)
    where
      go :
          (o : Option (PostingSource.PostingList source))
          (rest : Option (List (PostingSource.PostingList source)))
          → has_phrase_at source bm25 seg lists stats d (push_list o rest)
            ≡ phrase_here source bm25 seg d (gathered d (push_list o rest))
      go none rest = refl
      go (some l) none = refl
      go (some l) (some ls) = refl

  phrase_here-row :
      (d : ℕ) (t : Text) (ts : List Text)
      → phrase_here source bm25 seg d (all_occurrences source seg d (t ∷ ts))
        ≡ (row_from source seg d (occurrences source seg d t) ts && is_some (seg.doc_len d))
  unfolding phrase_matches
  phrase_here-row d t ts = go (occurrences source seg d t) (all_occurrences source seg d ts) (
      follows-Found source seg d ts (all_occurrences source seg d ts)
        (λ p0. follows-in_row source seg d p0 0 ts))
    where
      and_comm : (a b : Bool) → (a && b) ≡ (b && a)
      and_comm true true = refl
      and_comm true false = refl
      and_comm false true = refl
      and_comm false false = refl

      go :
          (o : Option (List ℕ)) (rest : Option (List (List ℕ)))
          → ((ps : List ℕ) → Found source seg d ps ts rest)
          → phrase_here source bm25 seg d (push_positions o rest)
            ≡ (row_from source seg d o ts && is_some (seg.doc_len d))
      go none none f = refl
      go none (some pss) f = refl
      go (some ps) none f = rw (f ps) refl
      go (some ps) (some pss) f =
          ap (λ b. is_some (seg.doc_len d) && b) (f ps)
          ∙ and_comm (is_some (seg.doc_len d)) (row_behind_any source seg d ps ts)

  has_term_at-occurrences :
      (d : ℕ) (o : Option (PostingSource.PostingList source))
      → has_term_at source bm25 seg lists stats d o
        ≡ (is_some (found_in source seg d o) && is_some (seg.doc_len d))
  has_term_at-occurrences d none = refl
  has_term_at-occurrences d (some l) = refl

  term-describes :
      (d : ℕ) (t : Text)
      → get_term t lists ≡ seg.postings t
      → has_term_at source bm25 seg lists stats d (get_term t lists)
        ≡ (is_some (occurrences source seg d t) && is_some (seg.doc_len d))
  term-describes d t h =
      ap (has_term_at source bm25 seg lists stats d) h ∙ has_term_at-occurrences d (seg.postings t)

  phrase-describes :
      (d : ℕ) (ts : List Text)
      → Holds (λ t. names_any t ts)
      → phrase_matches_at source bm25 seg lists stats d ts
        ≡ (has_row source seg d ts && is_some (seg.doc_len d))
  phrase-describes d [] h = refl
  phrase-describes d (t ∷ []) h = term-describes d t (h t (rw (text_eq_refl t) refl))
  phrase-describes d (t ∷ u ∷ ts) h =
      phrase_here-gathered d t (u ∷ ts)
      ∙ ap (phrase_here source bm25 seg d) (all_lists-gathered d (t ∷ u ∷ ts) h)
      ∙ phrase_here-row d t (u ∷ ts)

  left_true : {a : Bool} (b : Bool) → a ≡ true → (a || b) ≡ true
  left_true b h = rw h refl

  right_true : (a : Bool) {b : Bool} → b ≡ true → (a || b) ≡ true
  right_true true h = refl
  right_true false h = h

  has_clause-eq : (ns : Nodes) → has_nodes source bm25 seg lists stats ns ≡ has_clause source seg ns
  has_clause-eq nil = refl
  has_clause-eq (cons n ns) = refl

  mutual
    unfolding matches describes names

    pub matches-describes :
        (d : ℕ) (n : Node)
        → Holds (λ t. names t n)
        → matches source bm25 seg lists stats d n ≡ describes source seg d n
    matches-describes d (Node.term t) h = term-describes d t (h t (text_eq_refl t))
    matches-describes d (Node.phrase ts) h = phrase-describes d ts h
    matches-describes d (Node.and must must_not) h =
        rw
          (
            has_clause-eq must,
            all-describes d must (λ t k. h t (left_true (all_names t must_not) k)),
            any-describes d must_not (λ t k. h t (right_true (all_names t must) k)),
          )
          refl
    matches-describes d (Node.or ns) h = any-describes d ns h

    all-describes :
        (d : ℕ) (ns : Nodes)
        → Holds (λ t. all_names t ns)
        → all_match source bm25 seg lists stats d ns ≡ describes_all source seg d ns
    all-describes d nil h = refl
    all-describes d (cons n ns) h =
        rw
          (
            matches-describes d n (λ t k. h t (left_true (all_names t ns) k)),
            all-describes d ns (λ t k. h t (right_true (names t n) k)),
          )
          refl

    any-describes :
        (d : ℕ) (ns : Nodes)
        → Holds (λ t. all_names t ns)
        → any_match source bm25 seg lists stats d ns ≡ describes_any source seg d ns
    any-describes d nil h = refl
    any-describes d (cons n ns) h =
        rw
          (
            matches-describes d n (λ t k. h t (left_true (all_names t ns) k)),
            any-describes d ns (λ t k. h t (right_true (names t n) k)),
          )
          refl
