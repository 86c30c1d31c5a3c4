-- ===== src/Tokenizer.antt =====
-- src/tokenizer.rs: atoms, and the parts of identifiers. A text is its code points. The segmentation
-- into words and the classes and lower case of characters are Unicode's, and parameters.
pub mod Parts
pub mod Extends
use ripindex.Common.{
  ℕ, zero, suc, ◌+◌, ◌%◌, ◌^◌, Bool, true, false, not, ◌&&◌, ◌||◌, List, [], ◌∷◌, ◌++◌, length, ltb,
  leb, ◌==◌, if◌then◌else◌,
}
use ripindex.Query.Syntax.{Text, text_eq, byte_len}

-- `split_word_bound_indices`, the tests of `char`, `to_lowercase`.
pub record Unicode : Type 0 where
  pub word_bounds : Text → List (ℕ × Text)
  pub is_uppercase : ℕ → Bool
  pub is_numeric : ℕ → Bool
  pub is_alphabetic : ℕ → Bool
  pub to_lowercase : Text → Text

pub data Class : Type 0 where
  upper lower digit other : Class

unfoldable pub is_upper : Class → Bool
is_upper upper = true
is_upper _ = false

unfoldable pub is_lower : Class → Bool
is_lower lower = true
is_lower _ = false

unfoldable pub is_other : Class → Bool
is_other other = true
is_other _ = false

unfoldable pub within : ℕ → ℕ → ℕ → Bool
within lo hi c = leb lo c && leb c hi

-- `c.is_ascii_punctuation()`
unfoldable pub ascii_punctuation : ℕ → Bool
unfolding within
ascii_punctuation c =
    within 0x21 0x2f c || within 0x3a 0x40 c || within 0x5b 0x60 c || within 0x7b 0x7e c

unfoldable pub one_of : List ℕ → ℕ → Bool
one_of [] c = false
one_of (d ∷ ds) c = d == c || one_of ds c

abbrev pub mid_chars : List ℕ
mid_chars =
    0xb7 ∷ 0x387 ∷ 0x55f ∷ 0x5f4 ∷ 0x2027 ∷ 0xfe13 ∷ 0xfe55 ∷ 0xff1a ∷ 0x2018 ∷ 0x2019 ∷ 0x2024
    ∷ 0xfe52 ∷ 0xff07 ∷ 0xff0e ∷ 0x37e ∷ 0x589 ∷ 0x60c ∷ 0x60d ∷ 0x66c ∷ 0x7f8 ∷ 0x2044 ∷ 0xfe10
    ∷ 0xfe14 ∷ 0xfe50 ∷ 0xfe54 ∷ 0xff0c ∷ 0xff1b ∷ []

unfoldable pub is_cut : ℕ → Bool
unfolding ascii_punctuation one_of
is_cut c = if ltb c 0x80 then ascii_punctuation c && not (c == 0x5f) else one_of mid_chars c

-- `atom.split('_')`, from the segment that has been read.
unfoldable pub split_from : Text → Text → List Text
split_from seg [] = seg ∷ []
split_from seg (c ∷ cs) =
    if c == 0x5f then seg ∷ split_from [] cs else split_from (seg ++ c ∷ []) cs

-- The byte range of a token's atom, by its two ends.
pub record Token : Type 0 where
  pub term : Text
  pub position : ℕ
  pub span : ℕ × ℕ

unfoldable pub has_term : List Token → Text → Bool
has_term [] term = false
has_term (t ∷ ts) term = text_eq t.term term || has_term ts term

module _ (u : Unicode) where
  unfoldable pub class : ℕ → Class
  class c =
      if u.is_uppercase c
      then upper
      else if u.is_numeric c
      then digit
      else if u.is_alphabetic c
      then lower
      else other

  unfoldable pub next_is_lower : Text → Bool
  unfolding class is_lower
  next_is_lower [] = false
  next_is_lower (n ∷ cs) = is_lower (class n)

  -- A part starts at `c`, between `prev` and the characters after.
  unfoldable pub boundary : ℕ → ℕ → Text → Bool
  unfolding class is_upper is_other next_is_lower
  boundary prev c cs =
      is_upper (class c)
      && ((not (is_upper (class prev)) && not (is_other (class prev)))
          || (is_upper (class prev) && next_is_lower cs))

  unfoldable pub camel_from : Text → ℕ → Text → List Text
  unfolding boundary
  camel_from part prev [] = part ∷ []
  camel_from part prev (c ∷ cs) =
      if boundary prev c cs
      then part ∷ camel_from (c ∷ []) c cs
      else camel_from (part ++ c ∷ []) c cs

  unfoldable pub split_camel : Text → List Text
  unfolding camel_from
  split_camel [] = [] ∷ []
  split_camel (c ∷ cs) = camel_from (c ∷ []) c cs

  unfoldable pub all_parts : List Text → List Text
  unfolding split_camel
  all_parts [] = []
  all_parts ([] ∷ segs) = all_parts segs
  all_parts ((c ∷ cs) ∷ segs) = split_camel (c ∷ cs) ++ all_parts segs

  unfoldable pub unless_whole : Text → List Text → List Text
  unless_whole atom [] = []
  unless_whole atom (part ∷ []) = if byte_len part == byte_len atom then [] else part ∷ []
  unless_whole atom (part ∷ p ∷ parts) = part ∷ p ∷ parts

  unfoldable pub identifier_parts : Text → List Text
  unfolding unless_whole all_parts split_from
  identifier_parts atom = unless_whole atom (all_parts (split_from [] atom))

  unfoldable pub any_uppercase : Text → Bool
  any_uppercase [] = false
  any_uppercase (c ∷ cs) = u.is_uppercase c || any_uppercase cs

  unfoldable pub fold : Text → Text
  unfolding any_uppercase
  fold s = if any_uppercase s then u.to_lowercase s else s

  unfoldable pub any_alphanumeric : Text → Bool
  any_alphanumeric [] = false
  any_alphanumeric (c ∷ cs) = u.is_alphabetic c || u.is_numeric c || any_alphanumeric cs

  -- An atom ends at a cut character and at the end of the word.
  unfoldable pub emit : ℕ → Text → List (ℕ × Text) → List (ℕ × Text)
  unfolding any_alphanumeric
  emit start atom rest = if any_alphanumeric atom then (start, atom) ∷ rest else rest

  -- The atoms of a word from the byte `at` on, where `atom` has been read from `start` on.
  unfoldable pub word_atoms : ℕ → Text → ℕ → Text → List (ℕ × Text)
  unfolding emit is_cut
  word_atoms start atom at [] = emit start atom []
  word_atoms start atom at (c ∷ cs) =
      let next = at + byte_len (c ∷ []) in
      let later = word_atoms next [] next cs in
      let more = word_atoms start (atom ++ c ∷ []) next cs in
      if is_cut c then emit start atom later else more

  unfoldable pub all_atoms : List (ℕ × Text) → List (ℕ × Text)
  unfolding word_atoms
  all_atoms [] = []
  all_atoms ((off, w) ∷ words) = word_atoms off [] off w ++ all_atoms words

  -- What `next` puts into `pending` for the parts of an atom.
  unfoldable pub pend : Text → ℕ → ℕ × ℕ → List Token → List Text → List Token
  unfolding fold has_term
  pend whole position span pending [] = pending
  pend whole position span pending (part ∷ parts) =
      let term = fold part in
      if not (text_eq term whole) && not (has_term pending term)
      then pend whole position span
          (pending ++ record { term = term; position = position; span = span } ∷ []) parts
      else pend whole position span pending parts

  unfoldable pub parts_tokens : Bool → Text → ℕ → ℕ × ℕ → List Token
  unfolding pend identifier_parts fold
  parts_tokens false atom position span = []
  parts_tokens true atom position span = pend (fold atom) position span [] (identifier_parts atom)

  -- All that `next` gives, from a position on.
  unfoldable pub tokens_from : Bool → ℕ → List (ℕ × Text) → List Token
  unfolding fold parts_tokens
  tokens_from split position [] = []
  tokens_from split position ((start, atom) ∷ rest) =
      let span : ℕ × ℕ = (start, start + byte_len atom) in
      record { term = fold atom; position = position; span = span }
        ∷ parts_tokens split atom position span
      ++ tokens_from split ((position + 1) % 2 ^ 32) rest

  unfoldable pub tokenize : Text → List Token
  unfolding tokens_from all_atoms
  tokenize text = tokens_from true 0 (all_atoms (u.word_bounds text))

  unfoldable pub atoms : Text → List Token
  unfolding tokens_from all_atoms
  atoms text = tokens_from false 0 (all_atoms (u.word_bounds text))
