-- ===== src/Query/Highlight.antt =====
-- src/query/mod.rs, `Query::highlight_terms`: the terms that a snippet highlights.
use ripindex.Common.{
  ◌≡◌, refl, ap, ◌∙◌, Bool, false, ◌||◌, List, [], ◌∷◌, ◌++◌, arith, Bool-cases, inl, inr,
}
use ripindex.Query.Syntax.{Text, Node, Nodes, nil, cons, text_eq}
use ripindex.Query.Exec.{has_term, add_term, add_terms}
use ripindex.Query.Exec.Terms.{
  names_any, has_term-append, has_term-add_term, has_term-add_terms, or_assoc, or_false,
}

-- `walk` does not look at negated clauses.
unfoldable mutual
  unfolding add_term add_terms

  pub walk : Node → List Text → List Text
  walk (Node.term t) out = add_term t out
  walk (Node.phrase ts) out = add_terms ts out
  walk (Node.and must must_not) out = walk_all must out
  walk (Node.or ns) out = walk_all ns out

  pub walk_all : Nodes → List Text → List Text
  walk_all nil out = out
  walk_all (cons n ns) out = walk_all ns (walk n out)

unfoldable pub highlight_terms : Node → List Text
unfolding walk
highlight_terms root = walk root []

-- The term stands in the query outside every negated clause.
unfoldable mutual
  pub positive : Text → Node → Bool
  positive t (Node.term u) = text_eq u t
  positive t (Node.phrase us) = names_any t us
  positive t (Node.and must must_not) = any_positive t must
  positive t (Node.or ns) = any_positive t ns

  pub any_positive : Text → Nodes → Bool
  any_positive t nil = false
  any_positive t (cons n ns) = positive t n || any_positive t ns

mutual
  unfolding walk positive

  has_term-walk :
      (t : Text) (n : Node) (out : List Text)
      → has_term t (walk n out) ≡ (has_term t out || positive t n)
  has_term-walk t (Node.term u) out = has_term-add_term t u out
  has_term-walk t (Node.phrase us) out = has_term-add_terms t us out
  has_term-walk t (Node.and must must_not) out = has_term-walk_all t must out
  has_term-walk t (Node.or ns) out = has_term-walk_all t ns out

  has_term-walk_all :
      (t : Text) (ns : Nodes) (out : List Text)
      → has_term t (walk_all ns out) ≡ (has_term t out || any_positive t ns)
  has_term-walk_all t nil out = or_false (has_term t out)
  has_term-walk_all t (cons n ns) out =
      has_term-walk_all t ns (walk n out)
      ∙ ap (λ b. b || any_positive t ns) (has_term-walk t n out)
      ∙ or_assoc (has_term t out) (positive t n) (any_positive t ns)

-- No term stands twice.
abbrev pub Distinct : List Text → Type 0
Distinct [] = Unit
Distinct (t ∷ ts) = (has_term t ts ≡ false) × Distinct ts

text_eq_sym : (t u : Text) → text_eq t u ≡ text_eq u t
unfolding text_eq
text_eq_sym [] [] = refl
text_eq_sym [] (y ∷ ys) = refl
text_eq_sym (x ∷ xs) [] = refl
text_eq_sym (x ∷ xs) (y ∷ ys) = ground (arith, text_eq_sym xs ys)

append_new-Distinct :
    (u : Text) (out : List Text)
    → has_term u out ≡ false
    → Distinct out
    → Distinct (out ++ (u ∷ []))
append_new-Distinct u [] h d = (unfold has_term in refl, tt)
append_new-Distinct u (t ∷ ts) h d = (
  has_term-append t ts (u ∷ [])
      ∙ rw d.0 (unfold has_term in rw (text_eq_sym u t, (split h).0) refl),
  append_new-Distinct u ts (split h).1 d.1,
)
  where
    split : has_term u (t ∷ ts) ≡ false → (text_eq t u ≡ false) × (has_term u ts ≡ false)
    split h = unfold has_term in ground arith

add_term-Distinct : (u : Text) (out : List Text) → Distinct out → Distinct (add_term u out)
unfolding add_term
add_term-Distinct u out d = elim (Bool-cases (has_term u out)) [
  | inl old ↦ rw old d
  | inr new ↦ rw new (append_new-Distinct u out new d)
]

add_terms-Distinct : (us out : List Text) → Distinct out → Distinct (add_terms us out)
unfolding add_terms
add_terms-Distinct [] out d = d
add_terms-Distinct (u ∷ us) out d =
    add_terms-Distinct us (add_term u out) (add_term-Distinct u out d)

mutual
  unfolding walk

  walk-Distinct : (n : Node) (out : List Text) → Distinct out → Distinct (walk n out)
  walk-Distinct (Node.term t) out d = add_term-Distinct t out d
  walk-Distinct (Node.phrase ts) out d = add_terms-Distinct ts out d
  walk-Distinct (Node.and must must_not) out d = walk_all-Distinct must out d
  walk-Distinct (Node.or ns) out d = walk_all-Distinct ns out d

  walk_all-Distinct : (ns : Nodes) (out : List Text) → Distinct out → Distinct (walk_all ns out)
  walk_all-Distinct nil out d = d
  walk_all-Distinct (cons n ns) out d = walk_all-Distinct ns (walk n out) (walk-Distinct n out d)

-- The terms to highlight are exactly those that stand in the query outside every negated clause,
-- each once.
pub highlight_terms_lem :
    (t : Text) (root : Node)
    → (has_term t (highlight_terms root) ≡ positive t root) × Distinct (highlight_terms root)
unfolding highlight_terms
highlight_terms_lem t root =
    (has_term-walk t root [] ∙ unfold has_term in refl, walk-Distinct root [] tt)
