-- ===== src/Query/Parser/Bounds.antt =====
-- src/query/parser.rs, `parse`: the parser ends on every input, and what it returns is a query.
use ripindex.Common.{
  ℕ, zero, suc, ◌+◌, ◌*◌, ◌≤◌, ◌<◌, ◌≡◌, Bool, true, false, not, ◌||◌, ◌&&◌, Option, none, some,
  List, [], ◌∷◌, length, arith,
}
use ripindex.Query.Syntax.{
  Text, Node, Nodes, nil, cons, Tok, Toks, Outcome, byte_len, Ensures, holds, rejected,
  Ensures-bind, Ensures-if,
}
use ripindex.Query.Lexer.Offsets.{Rising, lex-Rising}
use ripindex.Query.Parser.{
  push, finish_and, sort_operand, close, starts_operand, no_nodes, parse_or, or_loop, parse_and,
  and_loop, parse_unary, parse_atom, finish, parse_toks, parse,
}
use ripindex.Query.Parser.Trees.{
  IsQuery, AreQueries, done, both, size, push-AreQueries, size-push, finish_or-IsQuery, InBound,
  finish_and-Ensures, OptionIsQuery, OperandIsQuery, sort_operand-AreQueries, text_to_node-IsQuery,
}
use mathlib.Core.Option
use mathlib.Core.Path.{subst, sym}

-- What is left of `m` tokens: at most as many, or fewer, and still in bound.
abbrev Left : ℕ → ℕ → Toks → Type 0
Left n m rest = (length rest ≤ m) × InBound n rest

close-Ensures :
    (n at m : ℕ) (q : Node) (ts : Toks)
    → at < n
    → IsQuery q
    → Left n m ts
    → Ensures n
        (λ (o, rest). OptionIsQuery o × (length rest < suc m) × InBound n rest)
        (close at q ts)
unfolding close
close-Ensures n at m q ((_, Tok.rparen) ∷ ts) h p (less, inside) = holds (p, omega arith, inside.1)
close-Ensures n at m q _ h p l = rejected h

map-OperandIsQuery :
    (o : Option Node) (negated : Bool)
    → OptionIsQuery o
    → OperandIsQuery (Option.map (λ m. (m, negated)) o)
map-OperandIsQuery none negated q = tt
map-OperandIsQuery (some m) negated q = q

stop-Ensures :
    (n m : ℕ) (must must_not : Nodes) (ts : Toks)
    → length ts ≤ m
    → AreQueries must
    → AreQueries must_not
    → InBound n ts
    → Ensures n (λ (q, rest). IsQuery q × Left n m rest) (finish_and must must_not ts)
stop-Ensures n m must must_not ts h qs rs b = go (finish_and-Ensures n must must_not ts qs rs b)
  where
    go :
        {r : Outcome (Node × Toks)}
        → Ensures n (λ (q, rest). IsQuery q × (rest ≡ ts)) r
        → Ensures n (λ (q, rest). IsQuery q × Left n m rest) r
    go (holds (q, e)) = holds (q, subst (Left n m) (sym e) (h, b))
    go (rejected w) = rejected w

module _ (atoms : Text → List Text) (n : ℕ) where
  mutual
    unfolding parse_or

    parse_or-Ensures :
        (f : ℕ) (ts : Toks)
        → 5 * length ts + 5 ≤ f
        → InBound n ts
        → Ensures n (λ (q, rest). IsQuery q × Left n (length ts) rest) (parse_or atoms f ts)
    parse_or-Ensures zero ts h b = absurd (omega arith)
    parse_or-Ensures (suc f) ts h b =
        Ensures-bind (parse_and-Ensures f ts (omega arith) b) λ (q, ts') (p, l).
          or_loop-Ensures f (cons q nil) ts' (length ts) (omega arith) (omega arith) (both p done)
            (omega arith) l.1

    or_loop-Ensures :
        (f : ℕ) (children : Nodes) (ts : Toks) (m : ℕ)
        → 5 * length ts + 1 ≤ f
        → length ts ≤ m
        → AreQueries children
        → 1 ≤ size children
        → InBound n ts
        → Ensures n (λ (q, rest). IsQuery q × Left n m rest) (or_loop atoms f children ts)
    or_loop-Ensures zero children ts m h hm qs s b = absurd (omega arith)
    or_loop-Ensures (suc f) children ((at, Tok.or) ∷ ts) m h hm qs s b =
        Ensures-if (starts_operand ts)
          (λ _. Ensures-bind (parse_and-Ensures f ts (omega arith) b.1) λ (q, ts') (p, l).
            or_loop-Ensures f (push children q) ts' m (omega arith) (omega arith)
              (push-AreQueries children q qs p) (omega (arith, size-push children q)) l.1)
          (λ _. rejected b.0)
    or_loop-Ensures (suc f) children ts m h hm qs s b =
        holds (finish_or-IsQuery children qs s, (hm, b))

    parse_and-Ensures :
        (f : ℕ) (ts : Toks)
        → 5 * length ts + 4 ≤ f
        → InBound n ts
        → Ensures n (λ (q, rest). IsQuery q × Left n (length ts) rest) (parse_and atoms f ts)
    parse_and-Ensures zero ts h b = absurd (omega arith)
    parse_and-Ensures (suc f) ts h b =
        and_loop-Ensures f nil nil ts (length ts) (omega arith) (omega arith) done done b

    and_loop-Ensures :
        (f : ℕ) (must must_not : Nodes) (ts : Toks) (m : ℕ)
        → 5 * length ts + 3 ≤ f
        → length ts ≤ m
        → AreQueries must
        → AreQueries must_not
        → InBound n ts
        → Ensures n (λ (q, rest). IsQuery q × Left n m rest) (and_loop atoms f must must_not ts)
    and_loop-Ensures zero must must_not ts m h hm qs rs b = absurd (omega arith)
    and_loop-Ensures (suc f) must must_not [] m h hm qs rs b =
        stop-Ensures n m must must_not [] hm qs rs b
    and_loop-Ensures (suc f) must must_not ((at, Tok.or) ∷ ts) m h hm qs rs b =
        stop-Ensures n m must must_not ((at, Tok.or) ∷ ts) hm qs rs b
    and_loop-Ensures (suc f) must must_not ((at, Tok.rparen) ∷ ts) m h hm qs rs b =
        stop-Ensures n m must must_not ((at, Tok.rparen) ∷ ts) hm qs rs b
    and_loop-Ensures (suc f) must must_not ((at, Tok.and) ∷ ts) m h hm qs rs b =
        Ensures-if ((no_nodes must && no_nodes must_not) || not (starts_operand ts))
          (λ _. rejected b.0)
          (λ _. and_loop-Ensures f must must_not ts m (omega arith) (omega arith) qs rs b.1)
    and_loop-Ensures (suc f) must must_not ts m h hm qs rs b =
        Ensures-bind (parse_unary-Ensures f ts (omega arith) b) λ (o, ts') (p, l, inside).
          let (qs', rs') = sort_operand-AreQueries o must must_not p qs rs in
          and_loop-Ensures f (sort_operand o must must_not).0 (sort_operand o must must_not).1 ts' m
            (omega arith) (omega arith) qs' rs' inside

    parse_unary-Ensures :
        (f : ℕ) (ts : Toks)
        → 5 * length ts + 2 ≤ f
        → InBound n ts
        → Ensures n
            (λ (o, rest). OperandIsQuery o × (length rest < length ts) × InBound n rest)
            (parse_unary atoms f ts)
    parse_unary-Ensures zero ts h b = absurd (omega arith)
    parse_unary-Ensures (suc f) ((at, Tok.minus) ∷ ts) h b =
        Ensures-bind (parse_atom-Ensures f ts (omega arith) b.1)
          λ (o, ts') (p, l, inside). holds (map-OperandIsQuery o true p, omega arith, inside)
    parse_unary-Ensures (suc f) ts h b =
        Ensures-bind (parse_atom-Ensures f ts (omega arith) b)
          λ (o, ts') (p, l, inside). holds (map-OperandIsQuery o false p, l, inside)

    parse_atom-Ensures :
        (f : ℕ) (ts : Toks)
        → 5 * length ts + 1 ≤ f
        → InBound n ts
        → Ensures n
            (λ (o, rest). OptionIsQuery o × (length rest < length ts) × InBound n rest)
            (parse_atom atoms f ts)
    parse_atom-Ensures zero ts h b = absurd (omega arith)
    parse_atom-Ensures (suc f) [] h b = rejected tt
    parse_atom-Ensures (suc f) ((at, Tok.lparen) ∷ ts) h b =
        Ensures-bind (parse_or-Ensures f ts (omega arith) b.1)
          λ (q, ts') (p, l). close-Ensures n at (length ts) q ts' b.0 p l
    parse_atom-Ensures (suc f) ((at, Tok.word w) ∷ ts) h b =
        holds (text_to_node-IsQuery atoms w, omega arith, b.1)
    parse_atom-Ensures (suc f) ((at, Tok.phrase p) ∷ ts) h b =
        holds (text_to_node-IsQuery atoms p, omega arith, b.1)
    parse_atom-Ensures (suc f) ((at, tok) ∷ ts) h b = rejected b.0

  finish-Ensures :
      (q : Node) (ts : Toks) → IsQuery q → InBound n ts → Ensures n IsQuery (finish atoms q ts)
  unfolding finish
  finish-Ensures q [] p b = holds p
  finish-Ensures q ((at, Tok.rparen) ∷ ts) p b = rejected b.0
  finish-Ensures q ((at, tok) ∷ ts) p b = rejected b.0

  parse_toks-Ensures : (ts : Toks) → InBound n ts → Ensures n IsQuery (parse_toks atoms ts)
  unfolding parse_toks
  parse_toks-Ensures [] b = rejected tt
  parse_toks-Ensures (t ∷ ts) b =
      Ensures-bind (parse_or-Ensures (5 * length (t ∷ ts) + 6) (t ∷ ts) (omega arith) b)
        λ (q, rest) (p, l). finish-Ensures q rest p l.1

Rising-InBound : (i n : ℕ) (ts : Toks) → Rising i n ts → InBound n ts
Rising-InBound i n [] r = tt
Rising-InBound i n ((at, t) ∷ ts) r = (r.1, Rising-InBound (at + 1) n ts r.2)

-- Whatever terms the tokenizer gives for a text, the parser answers on every input, without
-- running out of fuel: with a query tree, in which each `and`, `or` and phrase has the number of
-- parts its comment in the source promises, or with an error at a byte offset within the input.
pub parse-Ensures :
    (atoms : Text → List Text) (input : Text) → Ensures (byte_len input) IsQuery (parse atoms input)
unfolding parse
parse-Ensures atoms input = Ensures-bind (lex-Rising input) λ ts rise.
    parse_toks-Ensures atoms (byte_len input) ts (Rising-InBound 0 (byte_len input) ts rise)
