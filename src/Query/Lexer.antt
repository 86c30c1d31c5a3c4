-- ===== src/Query/Lexer.antt =====
-- src/query/parser.rs, `lex`: from a query to tokens with byte offsets.
pub mod Offsets
use ripindex.Common.{
  ℕ, zero, suc, ◌+◌, Bool, true, false, not, ◌&&◌, ◌||◌, Option, none, some, List, [], ◌∷◌, length,
  ltb, leb, ◌==◌, if◌then◌else◌,
}
use ripindex.Query.Syntax.{
  Text, Tok, Toks, QueryError, unterminated_phrase, Outcome, ok, err, out_of_fuel, ◌>>=◌, text_eq,
  len_utf8, byte_len,
}
use ripindex.Query.Syntax.{Node}

-- `char::is_whitespace`, the property White_Space.
unfoldable pub is_whitespace : ℕ → Bool
is_whitespace c =
    (leb 9 c && leb c 13)
    || (c == 0x20)
    || (c == 0x85)
    || (c == 0xa0)
    || (c == 0x1680)
    || (leb 0x2000 c && leb c 0x200a)
    || (c == 0x2028)
    || (c == 0x2029)
    || (c == 0x202f)
    || (c == 0x205f)
    || (c == 0x3000)

pushed : ℕ → Option (Text × Text) → Option (Text × Text)
pushed d none = none
pushed d (some (body, after)) = some (d ∷ body, after)

-- The text up to the next `"`, and what follows that; none if there is no other.
unfoldable pub find_quote : Text → Option (Text × Text)
unfolding pushed
find_quote [] = none
find_quote (d ∷ ds) = if d == b'"' then some ([], ds) else pushed d (find_quote ds)

-- The characters that end a word.
unfoldable pub ends_word : ℕ → Bool
unfolding is_whitespace
ends_word d = is_whitespace d || (d == b'(') || (d == b')') || (d == b'"')

-- The longest run of characters that do not end a word, and what follows.
unfoldable pub word_run : Text → Text × Text
unfolding ends_word
word_run [] = ([], [])
word_run (d ∷ ds) =
    let (w, after) = word_run ds in if ends_word d then ([], d ∷ ds) else (d ∷ w, after)

unfoldable pub keyword : Text → Tok
keyword w =
    if text_eq w (b'A' ∷ b'N' ∷ b'D' ∷ [])
    then Tok.and
    else if text_eq w (b'O' ∷ b'R' ∷ [])
    then Tok.or
    else Tok.word w

-- A character that is there and is no whitespace.
unfoldable pub follows_directly : Text → Bool
unfolding is_whitespace
follows_directly [] = false
follows_directly (d ∷ ds) = not (is_whitespace d)

-- `toks.push(t)` before the tokens of the later rounds.
unfoldable pub emit : ℕ × Tok → Outcome Toks → Outcome Toks
emit t rest = rest >>= λ ts. ok (t ∷ ts)

-- The rounds of the outer loop: the fuel, the byte offset of the next character, the characters.
unfoldable pub lex_loop : ℕ → ℕ → Text → Outcome Toks
unfolding emit
lex_loop fuel i [] = ok []
lex_loop zero i (c ∷ cs) = out_of_fuel
lex_loop (suc fuel) i (c ∷ cs) =
    let next = lex_loop fuel (i + len_utf8 c) cs in
    let quoted : Outcome Toks = elim (find_quote cs) [
      | none ↦ err (unterminated_phrase i)
      | some (body, after) ↦
          emit (i, Tok.phrase body) (lex_loop fuel (i + 1 + byte_len body + 1) after)
    ] in
    let (w, after) = word_run (c ∷ cs) in
    let worded = emit (i, keyword w) (lex_loop fuel (i + byte_len w) after) in
    if is_whitespace c
    then next
    else if c == b'('
    then emit (i, Tok.lparen) next
    else if c == b')'
    then emit (i, Tok.rparen) next
    else if c == b'"'
    then quoted
    else if c == b'-'
    then (if follows_directly cs then emit (i, Tok.minus) next else next)
    else worded

-- Each round takes a character at least.
unfoldable pub lex : Text → Outcome Toks
lex src = lex_loop (length src) 0 src
