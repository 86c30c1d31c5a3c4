-- ===== src/Tokenizer/Extends.antt =====
-- src/tokenizer.rs: the tokens of `tokenize` are those of `atoms` and parts of identifiers.
use ripindex.Common.{
  ℕ, ◌+◌, ◌%◌, ◌^◌, ◌≡◌, ◌≢◌, refl, sym, ◌∙◌, Bool, true, false, not, ◌&&◌, List, [], ◌∷◌, ◌++◌,
  All, All-append, Bool-cases, inl, inr,
}
use ripindex.Query.Syntax.{Text, text_eq, text_eq_refl, byte_len}
use ripindex.Tokenizer.{
  Unicode, Token, has_term, fold, pend, parts_tokens, identifier_parts, tokens_from, tokenize,
  atoms, all_atoms,
}

-- Each token of the first list stands in the second, followed by tokens of its position and span
-- that have other terms.
pub data Extends : List Token → List Token → Type 0 where
  none_left : Extends [] []
  one_more :
      (t : Token) (extra : List Token) {ts us : List Token}
      → All (λ e. (e.position ≡ t.position) × (e.span ≡ t.span) × (e.term ≢ t.term)) extra
      → Extends ts us
      → Extends (t ∷ ts) (t ∷ extra ++ us)

module _ (u : Unicode) where
  abbrev IsPart : Token → Token → Type 0
  IsPart t e = (e.position ≡ t.position) × (e.span ≡ t.span) × (e.term ≢ t.term)

  text_ne : (s t : Text) → text_eq s t ≡ false → s ≢ t
  text_ne s t h e =
      let f : text_eq s t ≡ true = rw e (text_eq_refl t) in
      let g : true ≡ false = sym f ∙ h in absurd cc

  and_true : (a b : Bool) → (a && b) ≡ true → a ≡ true
  and_true true b h = refl
  and_true false b h = h

  negated : (b : Bool) → not b ≡ true → b ≡ false
  negated false h = refl
  negated true h = sym h

  pend-IsPart :
      (t : Token) (pending : List Token) (parts : List Text)
      → All (IsPart t) pending
      → All (IsPart t) (pend u t.term t.position t.span pending parts)
  unfolding pend
  pend-IsPart t pending [] h = h
  pend-IsPart t pending (part ∷ parts) h =
      elim (Bool-cases
        (not (text_eq (fold u part) t.term) && not (has_term pending (fold u part)))) [
          | inr e ↦ rw e (pend-IsPart t pending parts h)
          | inl e ↦
              let new : Token = record {
                term = fold u part;
                position = t.position;
                span = t.span;
              } in
              rw e (
                pend-IsPart t (pending ++ new ∷ []) parts
                  (All-append (IsPart t) pending (new ∷ []) h ((refl, refl, differs e), tt)))
        ]
    where
      differs :
          (not (text_eq (fold u part) t.term) && not (has_term pending (fold u part))) ≡ true
          → fold u part ≢ t.term
      differs e = text_ne (fold u part) t.term (
          negated (text_eq (fold u part) t.term) (
            and_true (not (text_eq (fold u part) t.term)) (not (has_term pending (fold u part))) e))

  tokens_from-Extends :
      (position : ℕ) (rest : List (ℕ × Text))
      → Extends (tokens_from u false position rest) (tokens_from u true position rest)
  unfolding tokens_from parts_tokens
  tokens_from-Extends position [] = none_left
  tokens_from-Extends position ((start, atom) ∷ rest) =
      let span : ℕ × ℕ = (start, start + byte_len atom) in
      let t : Token = record { term = fold u atom; position = position; span = span } in
      one_more t (pend u (fold u atom) position span [] (identifier_parts u atom))
        (pend-IsPart t [] (identifier_parts u atom) tt)
        (tokens_from-Extends ((position + 1) % 2 ^ 32) rest)

  -- The atoms of a text, with their positions and spans, are what the index has of it, but for tokens
  -- that stand behind an atom, at its position and with its span, and have another term.
  pub tokenize-Extends : (text : Text) → Extends (atoms u text) (tokenize u text)
  unfolding atoms tokenize
  tokenize-Extends text = tokens_from-Extends 0 (all_atoms u (u.word_bounds text))
