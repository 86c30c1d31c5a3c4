-- ===== src/Query/Exec/Terms.antt =====
-- src/query/exec.rs, `query_terms` and the lookups of `evaluate`: every term that a query names has
-- been looked up.
use ripindex.Common.{
  ◌≡◌, refl, sym, ap, ◌∙◌, Bool, true, false, ◌||◌, Option, none, some, List, [], ◌∷◌, ◌++◌, arith,
  Bool-cases, inl, inr,
}
use ripindex.Query.Syntax.{Text, Node, Nodes, nil, cons, text_eq, text_eq_sound}
use ripindex.Query.Source.{PostingSource, Segment, Bm25}
use ripindex.Query.Exec.{get_term, has_term, add_term, add_terms, query_terms, all_terms, look_up}

pub or_assoc : (a b c : Bool) → ((a || b) || c) ≡ (a || (b || c))
or_assoc true b c = refl
or_assoc false b c = refl

pub or_false : (a : Bool) → a ≡ (a || false)
or_false true = refl
or_false false = refl

pub has_term-append :
    (t : Text) (out us : List Text) → has_term t (out ++ us) ≡ (has_term t out || has_term t us)
unfolding has_term
has_term-append t [] us = refl
has_term-append t (u ∷ out) us =
    ap (λ b. text_eq u t || b) (has_term-append t out us) ∙ sym (or_assoc (text_eq u t) _ _)

pub has_term-add_term :
    (t u : Text) (out : List Text) → has_term t (add_term u out) ≡ (has_term t out || text_eq u t)
unfolding add_term
has_term-add_term t u out = elim (Bool-cases (has_term u out)) [
  | inr new ↦ rw new (
      has_term-append t out (u ∷ [])
      ∙ unfold has_term in ap (λ b. has_term t out || b) (sym (or_false (text_eq u t))))
  | inl old ↦ rw old (known (text_eq u t) refl old)
]
  where
    known :
        (b : Bool)
        → text_eq u t ≡ b
        → has_term u out ≡ true
        → has_term t out ≡ (has_term t out || b)
    known false e h = or_false (has_term t out)
    known true e h = rw (← text_eq_sound u t e, h) refl

abbrev pub names_any : Text → List Text → Bool
names_any t [] = false
names_any t (u ∷ us) = text_eq u t || names_any t us

-- The query names the term, positively or not.
unfoldable mutual
  pub names : Text → Node → Bool
  names t (Node.term u) = text_eq u t
  names t (Node.phrase us) = names_any t us
  names t (Node.and must must_not) = all_names t must || all_names t must_not
  names t (Node.or ns) = all_names t ns

  pub all_names : Text → Nodes → Bool
  all_names t nil = false
  all_names t (cons n ns) = names t n || all_names t ns

pub has_term-add_terms :
    (t : Text) (us out : List Text)
    → has_term t (add_terms us out) ≡ (has_term t out || names_any t us)
unfolding add_terms
has_term-add_terms t [] out = or_false (has_term t out)
has_term-add_terms t (u ∷ us) out =
    has_term-add_terms t us (add_term u out)
    ∙ ap (λ b. b || names_any t us) (has_term-add_term t u out)
    ∙ or_assoc (has_term t out) (text_eq u t) (names_any t us)

mutual
  unfolding query_terms names

  has_term-query_terms :
      (t : Text) (n : Node) (out : List Text)
      → has_term t (query_terms n out) ≡ (has_term t out || names t n)
  has_term-query_terms t (Node.term u) out = has_term-add_term t u out
  has_term-query_terms t (Node.phrase us) out = has_term-add_terms t us out
  has_term-query_terms t (Node.and must must_not) out =
      has_term-all_terms t must_not (all_terms must out)
      ∙ ap (λ b. b || all_names t must_not) (has_term-all_terms t must out)
      ∙ or_assoc (has_term t out) (all_names t must) (all_names t must_not)
  has_term-query_terms t (Node.or ns) out = has_term-all_terms t ns out

  has_term-all_terms :
      (t : Text) (ns : Nodes) (out : List Text)
      → has_term t (all_terms ns out) ≡ (has_term t out || all_names t ns)
  has_term-all_terms t nil out = or_false (has_term t out)
  has_term-all_terms t (cons n ns) out =
      has_term-all_terms t ns (query_terms n out)
      ∙ ap (λ b. b || all_names t ns) (has_term-query_terms t n out)
      ∙ or_assoc (has_term t out) (names t n) (all_names t ns)

module _ (source : PostingSource) (bm25 : Bm25) (seg : Segment source) where
  look_up_absent :
      (t : Text) (us : List Text)
      → seg.postings t ≡ none
      → get_term t (look_up source bm25 seg us) ≡ none
  unfolding look_up get_term
  look_up_absent t [] h = refl
  look_up_absent t (u ∷ us) h = go (seg.postings u) refl (look_up_absent t us h)
    where
      go :
          (o : Option (PostingSource.PostingList source))
          → seg.postings u ≡ o
          → get_term t (look_up source bm25 seg us) ≡ none
          → get_term t (elim o [
            | none ↦ look_up source bm25 seg us
            | some l ↦ (u, l) ∷ look_up source bm25 seg us
          ])
            ≡ none
      go none e ih = ih
      go (some l) e ih = elim (Bool-cases (text_eq u t)) [
        | inl same ↦ absurd (clash (ap seg.postings (text_eq_sound u t same)))
        | inr other ↦ rw other ih
      ]
        where
          clash : seg.postings u ≡ seg.postings t → ⊥
          clash k = cc

  get_term-look_up :
      (t : Text) (us : List Text)
      → has_term t us ≡ true
      → get_term t (look_up source bm25 seg us) ≡ seg.postings t
  unfolding look_up get_term has_term
  get_term-look_up t [] h = cc
  get_term-look_up t (u ∷ us) h = go (seg.postings u) refl (λ k. get_term-look_up t us k)
    where
      later : text_eq u t ≡ false → has_term t us ≡ true
      later other = ground (arith, h, other)

      go :
          (o : Option (PostingSource.PostingList source))
          → seg.postings u ≡ o
          → (has_term t us ≡ true → get_term t (look_up source bm25 seg us) ≡ seg.postings t)
          → get_term t (elim o [
            | none ↦ look_up source bm25 seg us
            | some l ↦ (u, l) ∷ look_up source bm25 seg us
          ])
            ≡ seg.postings t
      go o e ih = elim (Bool-cases (text_eq u t)) [
        | inr other ↦ missed o other (ih (later other))
        | inl same ↦ met o same (sym (ap seg.postings (text_eq_sound u t same)) ∙ e)
      ]
        where
          missed :
              (o : Option (PostingSource.PostingList source))
              → text_eq u t ≡ false
              → get_term t (look_up source bm25 seg us) ≡ seg.postings t
              → get_term t (elim o [
                | none ↦ look_up source bm25 seg us
                | some l ↦ (u, l) ∷ look_up source bm25 seg us
              ])
                ≡ seg.postings t
          missed none other ih = ih
          missed (some l) other ih = rw other ih

          met :
              (o : Option (PostingSource.PostingList source))
              → text_eq u t ≡ true
              → seg.postings t ≡ o
              → get_term t (elim o [
                | none ↦ look_up source bm25 seg us
                | some l ↦ (u, l) ∷ look_up source bm25 seg us
              ])
                ≡ seg.postings t
          met none same e' = look_up_absent t us e' ∙ sym e'
          met (some l) same e' = rw same (sym e')

  -- A term that the query names, positively or negated, is looked up in every segment: the
  -- evaluation finds the segment's own list for it, or that it has none.
  pub get_term-query_terms :
      (t : Text) (node : Node)
      → names t node ≡ true
      → get_term t (look_up source bm25 seg (query_terms node [])) ≡ seg.postings t
  get_term-query_terms t node h =
      get_term-look_up t (query_terms node [])
        (has_term-query_terms t node [] ∙ unfold has_term in h)
