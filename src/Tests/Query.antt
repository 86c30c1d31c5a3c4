-- ===== src/Tests/Query.antt =====
-- src/query/parser.rs, on concrete queries.
use ripindex.Common.{◌≡◌, refl, List, [], ◌∷◌}
use ripindex.Query.Syntax.{Text, Node, nil, cons, ok, Ensures, byte_len, text_eq, len_utf8}
use ripindex.Query.Lexer.{
  lex, lex_loop, is_whitespace, find_quote, ends_word, word_run, keyword, follows_directly, emit,
}
use ripindex.Query.Lexer.Offsets.{Rising, lex-Rising}
use ripindex.Query.Parser.{
  parse, parse_toks, finish, text_to_node, sort_operand, finish_and, finish_or, push, no_nodes,
  starts_operand, parse_or,
}
use ripindex.Query.Parser.Trees.{IsQuery}
use ripindex.Query.Parser.Bounds.{parse-Ensures}

-- A tokenizer that makes one term of each text.
abbrev one_term : Text → List Text
one_term t = t ∷ []

-- a -b
abbrev minus_query : Text
minus_query = 97 ∷ 32 ∷ 45 ∷ 98 ∷ []

lex-Rising_example :
    Ensures (byte_len minus_query) (Rising 0 (byte_len minus_query)) (lex minus_query)
lex-Rising_example = lex-Rising minus_query

parse-Ensures_example : Ensures (byte_len minus_query) IsQuery (parse one_term minus_query)
parse-Ensures_example = parse-Ensures one_term minus_query

minus_tree :
    parse one_term minus_query
    ≡ ok (Node.and (cons (Node.term (97 ∷ [])) nil) (cons (Node.term (98 ∷ [])) nil))
unfolding parse parse_toks finish sort_operand finish_and finish_or push text_to_node no_nodes
    starts_operand parse_or lex lex_loop is_whitespace find_quote ends_word word_run keyword
    follows_directly emit text_eq len_utf8
minus_tree = refl
