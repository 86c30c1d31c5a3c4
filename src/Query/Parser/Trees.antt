-- ===== src/Query/Parser/Trees.antt =====
-- src/query/parser.rs, `Node`: the trees that the comments on the constructors describe.
use ripindex.Common.{
  ℕ, suc, ◌+◌, ◌≤◌, ◌<◌, ◌≡◌, refl, true, false, Option, none, some, List, [], ◌∷◌, length, arith,
  All,
}
use ripindex.Query.Syntax.{Text, Node, Nodes, nil, cons, Tok, Toks, Ensures, holds, rejected}
use ripindex.Query.Parser.{push, finish_or, finish_and, sort_operand, Operand, text_to_node}

abbrev pub size : Nodes → ℕ
size nil = 0
size (cons n ns) = suc (size ns)

-- A phrase has two terms at least, an `or` two children at least, an `and` a positive clause at
-- least and another clause beside it; and so below.
mutual
  pub data IsQuery : Node → Type 0 where
    term : (t : Text) → IsQuery (Node.term t)
    phrase : (ts : List Text) → 2 ≤ length ts → IsQuery (Node.phrase ts)
    and :
        (must must_not : Nodes)
        → AreQueries must
        → AreQueries must_not
        → 1 ≤ size must
        → 2 ≤ size must + size must_not
        → IsQuery (Node.and must must_not)
    or : (ns : Nodes) → AreQueries ns → 2 ≤ size ns → IsQuery (Node.or ns)

  pub data AreQueries : Nodes → Type 0 where
    done : AreQueries nil
    both : {n : Node} {ns : Nodes} → IsQuery n → AreQueries ns → AreQueries (cons n ns)

pub push-AreQueries : (ns : Nodes) (n : Node) → AreQueries ns → IsQuery n → AreQueries (push ns n)
unfolding push
push-AreQueries nil n qs q = both q done
push-AreQueries (cons m ms) n (both p ps) q = both p (push-AreQueries ms n ps q)

pub size-push : (ns : Nodes) (n : Node) → size (push ns n) ≡ suc (size ns)
unfolding push
size-push nil n = refl
size-push (cons m ms) n = omega (arith, size-push ms n)

pub finish_or-IsQuery : (ns : Nodes) → AreQueries ns → 1 ≤ size ns → IsQuery (finish_or ns)
unfolding finish_or
finish_or-IsQuery nil qs h = absurd (omega arith)
finish_or-IsQuery (cons n nil) (both q qs) h = q
finish_or-IsQuery (cons n (cons m ms)) qs h = or _ qs (omega arith)

-- The offsets of the tokens are below `n`.
abbrev pub InBound : ℕ → Toks → Type 0
InBound n ts = All (λ (t : ℕ × Tok). t.0 < n) ts

pub finish_and-Ensures :
    (n : ℕ) (must must_not : Nodes) (ts : Toks)
    → AreQueries must
    → AreQueries must_not
    → InBound n ts
    → Ensures n (λ (q, rest). IsQuery q × (rest ≡ ts)) (finish_and must must_not ts)
unfolding finish_and
finish_and-Ensures n nil (cons m ms) ts qs rs b = rejected tt
finish_and-Ensures n nil nil [] qs rs b = rejected tt
finish_and-Ensures n nil nil ((at, tok) ∷ ts) qs rs b = rejected b.0
finish_and-Ensures n (cons m nil) nil ts (both q qs) rs b = holds (q, refl)
finish_and-Ensures n (cons m nil) (cons k ks) ts qs rs b =
    holds (and _ _ qs rs (omega arith) (omega arith), refl)
finish_and-Ensures n (cons m (cons k ks)) must_not ts qs rs b =
    holds (and _ _ qs rs (omega arith) (omega arith), refl)

-- A node that is there is a query.
abbrev pub OptionIsQuery : Option Node → Type 0
OptionIsQuery none = Unit
OptionIsQuery (some n) = IsQuery n

abbrev pub OperandIsQuery : Operand → Type 0
OperandIsQuery none = Unit
OperandIsQuery (some (n, negated)) = IsQuery n

pub sort_operand-AreQueries :
    (o : Operand) (must must_not : Nodes)
    → OperandIsQuery o
    → AreQueries must
    → AreQueries must_not
    → AreQueries (sort_operand o must must_not).0 × AreQueries (sort_operand o must must_not).1
unfolding sort_operand
sort_operand-AreQueries none must must_not q qs rs = (qs, rs)
sort_operand-AreQueries (some (n, true)) must must_not q qs rs =
    (qs, push-AreQueries must_not n rs q)
sort_operand-AreQueries (some (n, false)) must must_not q qs rs = (push-AreQueries must n qs q, rs)

pub text_to_node-IsQuery :
    (atoms : Text → List Text) (text : Text) → OptionIsQuery (text_to_node atoms text)
unfolding text_to_node
text_to_node-IsQuery atoms text = go (atoms text)
  where
    go :
        (terms : List Text)
        → OptionIsQuery (elim terms [
          | [] ↦ none
          | t ∷ ts ↦ elim ts [ [] ↦ some (Node.term t) | u ∷ us ↦ some (Node.phrase (t ∷ u ∷ us)) ]
        ])
    go [] = tt
    go (t ∷ []) = term t
    go (t ∷ u ∷ us) = phrase _ (omega arith)
