-- ===== src/Query/Lexer/Offsets.antt =====
-- src/query/parser.rs, `lex`: it ends on every input, and its offsets rise within the input.
use ripindex.Common.{
  ℕ, zero, suc, ◌+◌, ◌≤◌, ◌<◌, ◌≡◌, refl, true, false, Option, none, some, [], ◌∷◌, length, ◌==◌,
  arith, Option-cases, inl, inr,
}
use ripindex.Query.Syntax.{
  Text, Tok, Toks, unterminated_phrase, Outcome, err, len_utf8, byte_len, Ensures, holds, rejected,
  Ensures-bind, Ensures-if,
}
use ripindex.Query.Lexer.{
  is_whitespace, find_quote, ends_word, word_run, follows_directly, emit, lex_loop, lex,
}

-- The offsets rise, from `i` on and below `n`.
abbrev pub Rising : ℕ → ℕ → Toks → Type 0
Rising i n [] = Unit
Rising i n ((at, t) ∷ ts) = (i ≤ at) × (at < n) × Rising (at + 1) n ts

Rising-from : (i j n : ℕ) (ts : Toks) → i ≤ j → Rising j n ts → Rising i n ts
Rising-from i j n [] h r = tt
Rising-from i j n ((at, t) ∷ ts) h r = (omega arith, r.1, r.2)

len_utf8-pos : (c : ℕ) → 1 ≤ len_utf8 c
unfolding len_utf8
len_utf8-pos c = ground arith

find_quote-split :
    (cs body after : Text)
    → find_quote cs ≡ some (body, after)
    → (byte_len cs ≡ byte_len body + 1 + byte_len after) × (length after < length cs)
unfolding find_quote byte_len len_utf8
find_quote-split [] body after e = cc
find_quote-split (d ∷ ds) body after e = elim (Option-cases (find_quote ds)) [
  | inl none_left ↦ ground (arith, none_left)
  | inr ((b, a), found) ↦ ground (arith, found, find_quote-split ds b a found)
]

word_run-split :
    (cs : Text)
    → (byte_len cs ≡ byte_len (word_run cs).0 + byte_len (word_run cs).1)
      × (length (word_run cs).1 ≤ length cs)
unfolding word_run byte_len
word_run-split [] = omega arith
word_run-split (d ∷ ds) = ground (arith, word_run-split ds)

word_run-takes :
    (c : ℕ) (cs : Text)
    → ends_word c ≡ false
    → (1 ≤ byte_len (word_run (c ∷ cs)).0) × (length (word_run (c ∷ cs)).1 ≤ length cs)
unfolding word_run byte_len
word_run-takes c cs h = ground (arith, word_run-split cs, len_utf8-pos c)

abbrev pub Lexed : ℕ → ℕ → Outcome Toks → Type 0
Lexed i n = Ensures n (Rising i n)

emit-Lexed :
    (i j n : ℕ) (t : Tok) (r : Outcome Toks)
    → i < n
    → i < j
    → Lexed j n r
    → Lexed i n (emit (i, t) r)
unfolding emit
emit-Lexed i j n t r hn hj l =
    Ensures-bind l λ ts rise. holds (omega arith, hn, Rising-from (i + 1) j n ts (omega arith) rise)

weaken-Lexed : (i j n : ℕ) (r : Outcome Toks) → i ≤ j → Lexed j n r → Lexed i n r
weaken-Lexed i j n r h (holds {a} rise) = holds (Rising-from i j n a h rise)
weaken-Lexed i j n r h (rejected w) = rejected w

-- A quoted phrase: the text up to the closing quote, and the rounds behind it.
quoted-Lexed :
    (i n : ℕ) (cs : Text) (loop : ℕ → Text → Outcome Toks)
    → i + 1 + byte_len cs ≡ n
    → ((j : ℕ) (ds : Text) → length ds < length cs → j + byte_len ds ≡ n → Lexed j n (loop j ds))
    → Lexed i n (elim (find_quote cs) [
      | none ↦ err (unterminated_phrase i)
      | some (body, after) ↦ emit (i, Tok.phrase body) (loop (i + 1 + byte_len body + 1) after)
    ])
quoted-Lexed i n cs loop e ih = go (find_quote cs) refl
  where
    go :
        (q : Option (Text × Text))
        → find_quote cs ≡ q
        → Lexed i n (elim q [
          | none ↦ err (unterminated_phrase i)
          | some (body, after) ↦ emit (i, Tok.phrase body) (loop (i + 1 + byte_len body + 1) after)
        ])
    go none q = rejected (omega arith)
    go (some (body, after)) q =
        let (bytes, shorter) = find_quote-split cs body after q in
        emit-Lexed i (i + 1 + byte_len body + 1) n (Tok.phrase body) _ (omega arith) (omega arith)
          (ih _ after shorter (omega arith))

lex_loop-Lexed :
    (fuel i n : ℕ) (cs : Text)
    → length cs ≤ fuel
    → i + byte_len cs ≡ n
    → Lexed i n (lex_loop fuel i cs)
unfolding lex_loop byte_len
lex_loop-Lexed fuel i n [] h e = holds tt
lex_loop-Lexed zero i n (c ∷ cs) h e = absurd (omega arith)
lex_loop-Lexed (suc fuel) i n (c ∷ cs) h e =
    let pos = len_utf8-pos c in
    let next = lex_loop-Lexed fuel (i + len_utf8 c) n cs (omega arith) (omega arith) in
    let emitted =
      λ (t : Tok). emit-Lexed i (i + len_utf8 c) n t _ (omega arith) (omega arith) next in
    let passed = weaken-Lexed i (i + len_utf8 c) n _ (omega arith) next in
    Ensures-if (is_whitespace c) (λ _. passed)
      λ not_space.
        Ensures-if (c == b'(') (λ _. emitted Tok.lparen)
          λ not_open.
            Ensures-if (c == b')') (λ _. emitted Tok.rparen)
              λ not_close.
                Ensures-if (c == b'"')
                  (λ quote.
                    quoted-Lexed i n cs (lex_loop fuel) (ground (arith, one_byte c quote))
                      (λ j ds shorter at. lex_loop-Lexed fuel j n ds (omega arith) at))
                  λ not_quote.
                    Ensures-if (c == b'-')
                      (λ _. Ensures-if (follows_directly cs) (λ _. emitted Tok.minus) (λ _. passed))
                      λ _.
                        let (some_bytes, shorter) =
                          word_run-takes c cs (goes_on c not_space not_open not_close not_quote) in
                        let (bytes, _) = word_run-split (c ∷ cs) in
                        emit-Lexed i (i + byte_len (word_run (c ∷ cs)).0) n _ _ (omega arith)
                          (omega arith)
                          (lex_loop-Lexed fuel _ n (word_run (c ∷ cs)).1 (omega arith)
                            (omega arith))
  where
    one_byte : (c : ℕ) → (c == b'"') ≡ true → len_utf8 c ≡ 1
    one_byte c q = unfold len_utf8 in ground arith

    goes_on :
        (c : ℕ)
        → is_whitespace c ≡ false
        → (c == b'(') ≡ false
        → (c == b')') ≡ false
        → (c == b'"') ≡ false
        → ends_word c ≡ false
    goes_on c a b d q = unfold ends_word in ground arith

-- On every input the lexer answers, within its fuel: with tokens whose byte offsets strictly rise
-- within the input, or with an error at an offset within it.
pub lex-Rising : (src : Text) → Ensures (byte_len src) (Rising 0 (byte_len src)) (lex src)
unfolding lex
lex-Rising src = lex_loop-Lexed (length src) 0 (byte_len src) src (omega arith) (omega arith)
