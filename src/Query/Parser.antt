-- ===== src/Query/Parser.antt =====
-- src/query/parser.rs, `Parser` and `parse`: recursive descent over the tokens. The state is the
-- tokens from `idx` on, so `peek` is the head of the list and `bump` its tail.
pub mod Trees
pub mod Bounds
use ripindex.Common.{
  ℕ, zero, suc, ◌+◌, ◌*◌, Bool, true, false, not, ◌||◌, ◌&&◌, Option, none, some, List, [], ◌∷◌,
  ◌++◌, length, if◌then◌else◌,
}
use ripindex.Query.Syntax.{
  Text, Node, Nodes, nil, cons, Tok, Toks, QueryError, unexpected, unbalanced_paren, only_negation,
  Outcome, ok, err, out_of_fuel, ◌>>=◌,
}
use ripindex.Query.Lexer.{lex}
use mathlib.Core.Option

-- `Tok::describe`
unfoldable pub describe : Tok → Text
describe (Tok.word w) = w
describe (Tok.phrase p) = b'"' ∷ (p ++ (b'"' ∷ []))
describe Tok.and = b'A' ∷ b'N' ∷ b'D' ∷ []
describe Tok.or = b'O' ∷ b'R' ∷ []
describe Tok.minus = b'-' ∷ []
describe Tok.lparen = b'(' ∷ []
describe Tok.rparen = b')' ∷ []

unfoldable pub starts_operand : Toks → Bool
starts_operand [] = false
starts_operand ((at, Tok.word w) ∷ ts) = true
starts_operand ((at, Tok.phrase p) ∷ ts) = true
starts_operand ((at, Tok.minus) ∷ ts) = true
starts_operand ((at, Tok.lparen) ∷ ts) = true
starts_operand ((at, _) ∷ ts) = false

-- `Vec::push`
unfoldable pub push : Nodes → Node → Nodes
push nil n = cons n nil
push (cons m ms) n = cons m (push ms n)

unfoldable pub no_nodes : Nodes → Bool
no_nodes nil = true
no_nodes (cons n ns) = false

-- The end of `parse_or`.
unfoldable pub finish_or : Nodes → Node
finish_or (cons n nil) = n
finish_or ns = Node.or ns

-- The end of `parse_and`, in front of the tokens `ts`.
unfoldable pub finish_and : Nodes → Nodes → Toks → Outcome (Node × Toks)
unfolding describe
finish_and nil (cons n ns) ts = err only_negation
finish_and nil nil [] = err QueryError.empty
finish_and nil nil ((at, tok) ∷ ts) = err (unexpected (describe tok) at)
finish_and (cons n nil) nil ts = ok (n, ts)
finish_and must must_not ts = ok (Node.and must must_not, ts)

-- An operand that gave a node, with whether it is negated.
abbrev pub Operand : Type 0
Operand = Option (Node × Bool)

unfoldable pub sort_operand : Operand → Nodes → Nodes → Nodes × Nodes
unfolding push
sort_operand none must must_not = (must, must_not)
sort_operand (some (n, true)) must must_not = (must, push must_not n)
sort_operand (some (n, false)) must must_not = (push must n, must_not)

-- The `)` that closes the group opened at `at`.
unfoldable pub close : ℕ → Node → Toks → Outcome (Option Node × Toks)
close at n ((_, Tok.rparen) ∷ ts) = ok (some n, ts)
close at n _ = err (unbalanced_paren at)

-- The tokenizer's `atoms`, which gives the folded terms of a text.
module _ (atoms : Text → List Text) where
  unfoldable pub text_to_node : Text → Option Node
  text_to_node text = elim (atoms text) [
    | [] ↦ none
    | t ∷ ts ↦ elim ts [ [] ↦ some (Node.term t) | u ∷ us ↦ some (Node.phrase (t ∷ u ∷ us)) ]
  ]

  unfoldable mutual
    pub parse_or : ℕ → Toks → Outcome (Node × Toks)
    parse_or zero ts = out_of_fuel
    parse_or (suc f) ts = parse_and f ts >>= λ (n, ts'). or_loop f (cons n nil) ts'

    pub or_loop : ℕ → Nodes → Toks → Outcome (Node × Toks)
    or_loop zero children ts = out_of_fuel
    or_loop (suc f) children ((at, Tok.or) ∷ ts) =
        let more = parse_and f ts >>= λ (n, ts'). or_loop f (push children n) ts' in
        if starts_operand ts then more else err (unexpected (describe Tok.or) at)
    or_loop (suc f) children ts = ok (finish_or children, ts)

    pub parse_and : ℕ → Toks → Outcome (Node × Toks)
    parse_and zero ts = out_of_fuel
    parse_and (suc f) ts = and_loop f nil nil ts

    pub and_loop : ℕ → Nodes → Nodes → Toks → Outcome (Node × Toks)
    and_loop zero must must_not ts = out_of_fuel
    and_loop (suc f) must must_not [] = finish_and must must_not []
    and_loop (suc f) must must_not ((at, Tok.or) ∷ ts) =
        finish_and must must_not ((at, Tok.or) ∷ ts)
    and_loop (suc f) must must_not ((at, Tok.rparen) ∷ ts) =
        finish_and must must_not ((at, Tok.rparen) ∷ ts)
    and_loop (suc f) must must_not ((at, Tok.and) ∷ ts) =
        let more = and_loop f must must_not ts in
        if (no_nodes must && no_nodes must_not) || not (starts_operand ts)
        then err (unexpected (describe Tok.and) at)
        else more
    and_loop (suc f) must must_not ts = parse_unary f ts >>= λ (operand, ts').
        let (must', must_not') = sort_operand operand must must_not in
        and_loop f must' must_not' ts'

    pub parse_unary : ℕ → Toks → Outcome (Operand × Toks)
    parse_unary zero ts = out_of_fuel
    parse_unary (suc f) ((at, Tok.minus) ∷ ts) =
        parse_atom f ts >>= λ (n, ts'). ok (Option.map (λ m. (m, true)) n, ts')
    parse_unary (suc f) ts =
        parse_atom f ts >>= λ (n, ts'). ok (Option.map (λ m. (m, false)) n, ts')

    pub parse_atom : ℕ → Toks → Outcome (Option Node × Toks)
    parse_atom zero ts = out_of_fuel
    parse_atom (suc f) [] = err QueryError.empty
    parse_atom (suc f) ((at, Tok.lparen) ∷ ts) = parse_or f ts >>= λ (n, ts'). close at n ts'
    parse_atom (suc f) ((at, Tok.word w) ∷ ts) = ok (text_to_node w, ts)
    parse_atom (suc f) ((at, Tok.phrase p) ∷ ts) = ok (text_to_node p, ts)
    parse_atom (suc f) ((at, tok) ∷ ts) = err (unexpected (describe tok) at)

  -- What `parse` makes of the tokens that `parse_or` left.
  unfoldable pub finish : Node → Toks → Outcome Node
  finish n [] = ok n
  finish n ((at, Tok.rparen) ∷ ts) = err (unbalanced_paren at)
  finish n ((at, tok) ∷ ts) = err (unexpected (describe tok) at)

  unfoldable pub parse_toks : Toks → Outcome Node
  parse_toks [] = err QueryError.empty
  parse_toks (t ∷ ts) = parse_or (5 * length (t ∷ ts) + 6) (t ∷ ts) >>= λ (n, rest). finish n rest

  -- Each token costs a call of each of the five functions at most.
  unfoldable pub parse : Text → Outcome Node
  parse input = lex input >>= parse_toks
