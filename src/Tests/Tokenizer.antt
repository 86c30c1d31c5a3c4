-- ===== src/Tests/Tokenizer.antt =====
-- src/tokenizer.rs, with the classes of ASCII.
use ripindex.Common.{◌+◌, ◌≡◌, refl, ◌||◌, [], ◌∷◌, if◌then◌else◌}
use ripindex.Query.Syntax.{Text, text_eq, byte_len, len_utf8}
use ripindex.Tokenizer.{
  Unicode, within, ascii_punctuation, one_of, is_cut, split_from, has_term, class, is_upper,
  is_lower, is_other, next_is_lower, boundary, camel_from, split_camel, all_parts, unless_whole,
  identifier_parts, any_uppercase, fold, any_alphanumeric, emit, word_atoms, all_atoms, pend,
  parts_tokens, tokens_from, tokenize, atoms,
}
use ripindex.Tokenizer.Parts.{described, unless_atom, identifier_parts-eq}
use ripindex.Tokenizer.Extends.{Extends, tokenize-Extends}

abbrev lower_ascii : Text → Text
lower_ascii [] = []
lower_ascii (c ∷ cs) = (if within 0x41 0x5a c then c + 32 else c) ∷ lower_ascii cs

abbrev ascii : Unicode
ascii = record {
  word_bounds = λ text. (0, text) ∷ [];
  is_uppercase = within 0x41 0x5a;
  is_numeric = within 0x30 0x39;
  is_alphabetic = λ c. within 0x41 0x5a c || within 0x61 0x7a c;
  to_lowercase = lower_ascii;
}

-- `aB_c`
abbrev an_atom : Text
an_atom = 0x61 ∷ 0x42 ∷ 0x5f ∷ 0x63 ∷ []

parts-an_atom : identifier_parts ascii an_atom ≡ (0x61 ∷ []) ∷ (0x42 ∷ []) ∷ (0x63 ∷ []) ∷ []
unfolding identifier_parts unless_whole all_parts split_from split_camel camel_from boundary class
    is_upper is_lower is_other next_is_lower within
parts-an_atom = refl

-- `a.b` and `aB` as atoms: their terms, positions and spans.
tokenize-two :
    tokenize ascii (0x61 ∷ 0x2e ∷ 0x61 ∷ 0x42 ∷ [])
    ≡ record { term = 0x61 ∷ []; position = 0; span = (0, 1) }
      ∷ record { term = 0x61 ∷ 0x62 ∷ []; position = 1; span = (2, 4) }
      ∷ record { term = 0x61 ∷ []; position = 1; span = (2, 4) }
      ∷ record { term = 0x62 ∷ []; position = 1; span = (2, 4) }
      ∷ []
unfolding tokenize tokens_from parts_tokens pend has_term all_atoms word_atoms emit is_cut
    ascii_punctuation one_of any_alphanumeric fold any_uppercase identifier_parts unless_whole
    all_parts split_from split_camel camel_from boundary class is_upper is_lower is_other
    next_is_lower within byte_len len_utf8 text_eq
tokenize-two = refl

identifier_parts-eq_example :
    identifier_parts ascii an_atom ≡ unless_atom ascii an_atom (described ascii an_atom)
identifier_parts-eq_example = identifier_parts-eq ascii an_atom

tokenize-Extends_example : Extends (atoms ascii an_atom) (tokenize ascii an_atom)
tokenize-Extends_example = tokenize-Extends ascii an_atom
