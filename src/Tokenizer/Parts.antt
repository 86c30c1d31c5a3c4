-- ===== src/Tokenizer/Parts.antt =====
-- src/tokenizer.rs, `identifier_parts`, and the parts described from each character and the next two.
use ripindex.Common.{
  arith, ℕ, ◌+◌, ◌≤◌, ◌≡◌, refl, sym, ap, ◌∙◌, Bool, true, false, not, ◌&&◌, ◌||◌, List, [], ◌∷◌,
  ◌++◌, Bool-cases, inl, inr, if◌then◌else◌, append_assoc, append-nil, ◌==◌, ==_iff, eq→==, ne→==,
}
use mathlib.Core.Path.{subst}
use ripindex.Query.Syntax.{Text, byte_len, len_utf8, text_eq, text_eq_sound, text_eq_refl}
use ripindex.Tokenizer.{
  Unicode, upper, lower, digit, other, is_upper, is_lower, is_other, class, next_is_lower, boundary,
  camel_from, split_camel, all_parts, split_from, unless_whole, identifier_parts,
}

abbrev pub underscore : ℕ → Bool
underscore c = c == 0x5f

module _ (u : Unicode) where
  abbrev pub is_small : ℕ → Bool
  is_small c = not (u.is_uppercase c) && not (u.is_numeric c) && u.is_alphabetic c

  abbrev pub then_small : Text → Bool
  then_small [] = false
  then_small (n ∷ cs) = not (underscore n) && is_small n

  -- A capital starts a part behind a small letter or a digit, and behind a capital if a small letter
  -- follows it.
  abbrev pub starts : ℕ → ℕ → Text → Bool
  starts c d ds =
      u.is_uppercase d
      && (if u.is_uppercase c then then_small ds else u.is_numeric c || u.is_alphabetic c)

  -- The next character stands in the part of `c`.
  abbrev pub continues : ℕ → Text → Bool
  continues c [] = false
  continues c (d ∷ ds) = not (underscore d) && not (starts c d ds)

  abbrev pub glue : Text → Bool → List Text → List Text
  glue part true (p ∷ ps) = (part ++ p) ∷ ps
  glue part true [] = part ∷ []
  glue part false ps = part ∷ ps

  abbrev pub described : Text → List Text
  described [] = []
  described (c ∷ cs) =
      if underscore c then described cs else glue (c ∷ []) (continues c cs) (described cs)

  -- A single part that is the atom adds nothing.
  abbrev pub unless_atom : Text → List Text → List Text
  unless_atom atom [] = []
  unless_atom atom (p ∷ []) = if text_eq p atom then [] else p ∷ []
  unless_atom atom (p ∷ q ∷ ps) = p ∷ q ∷ ps

  -- Up to the next underscore, and the segments behind it.
  abbrev before : Text → Text
  before [] = []
  before (c ∷ cs) = if underscore c then [] else c ∷ before cs

  abbrev behind : Text → List Text
  behind [] = []
  behind (c ∷ cs) = if underscore c then split_from [] cs else behind cs

  split_from-eq : (seg cs : Text) → split_from seg cs ≡ (seg ++ before cs) ∷ behind cs
  unfolding split_from
  split_from-eq seg [] = ap (λ s. s ∷ []) (sym (append-nil seg))
  split_from-eq seg (c ∷ cs) = elim (Bool-cases (c == 0x5f)) [
    | inl e ↦ rw e (ap (λ s. s ∷ split_from [] cs) (sym (append-nil seg)))
    | inr e ↦ rw e (
        split_from-eq (seg ++ c ∷ []) cs
        ∙ ap (λ s. s ∷ behind cs) (append_assoc seg (c ∷ []) (before cs)))
  ]

  upper_of :
      (a b d : Bool)
      → is_upper (if a then upper else if b then digit else if d then lower else other) ≡ a
  unfolding is_upper
  upper_of true b d = refl
  upper_of false true d = refl
  upper_of false false true = refl
  upper_of false false false = refl

  lower_of :
      (a b d : Bool)
      → is_lower (if a then upper else if b then digit else if d then lower else other)
        ≡ (not a && not b && d)
  unfolding is_lower
  lower_of true b d = refl
  lower_of false true d = refl
  lower_of false false true = refl
  lower_of false false false = refl

  other_of :
      (a b d : Bool)
      → is_other (if a then upper else if b then digit else if d then lower else other)
        ≡ (not a && not b && not d)
  unfolding is_other
  other_of true b d = refl
  other_of false true d = refl
  other_of false false true = refl
  other_of false false false = refl

  next_is_lower-before : (cs : Text) → next_is_lower u (before cs) ≡ then_small cs
  unfolding next_is_lower class
  next_is_lower-before [] = refl
  next_is_lower-before (n ∷ cs) = elim (Bool-cases (n == 0x5f)) [
    | inl e ↦ rw e refl
    | inr e ↦ rw e (lower_of (u.is_uppercase n) (u.is_numeric n) (u.is_alphabetic n))
  ]

  boundary-starts : (prev c : ℕ) (cs : Text) → boundary u prev c (before cs) ≡ starts prev c cs
  unfolding boundary class
  boundary-starts prev c cs =
      rw
        (
          upper_of (u.is_uppercase c) (u.is_numeric c) (u.is_alphabetic c),
          upper_of (u.is_uppercase prev) (u.is_numeric prev) (u.is_alphabetic prev),
          other_of (u.is_uppercase prev) (u.is_numeric prev) (u.is_alphabetic prev),
          next_is_lower-before cs,
        )
        (ap (λ b. u.is_uppercase c && b)
          (cases (u.is_uppercase prev) (u.is_numeric prev) (u.is_alphabetic prev) (then_small cs)))
    where
      cases :
          (a b d n : Bool)
          → ((not a && not (not a && not b && not d)) || (a && n)) ≡ (if a then n else b || d)
      cases true b d n = refl
      cases false true d n = refl
      cases false false true n = refl
      cases false false false n = refl

  glue-snoc :
      (part : Text) (c : ℕ) (b : Bool) (ps : List Text)
      → glue (part ++ c ∷ []) b ps ≡ glue part true (glue (c ∷ []) b ps)
  glue-snoc part c true [] = refl
  glue-snoc part c true (p ∷ ps) = ap (λ s. s ∷ ps) (append_assoc part (c ∷ []) p)
  glue-snoc part c false ps = refl

  mutual
    unfolding all_parts split_camel camel_from split_from

    parts-described : (cs : Text) → all_parts u (split_from [] cs) ≡ described cs
    parts-described [] = refl
    parts-described (c ∷ cs) = elim (Bool-cases (c == 0x5f)) [
      | inl e ↦ rw e (parts-described cs)
      | inr e ↦ rw e (ap (all_parts u) (split_from-eq (c ∷ []) cs) ∙ camel-described (c ∷ []) c cs)
    ]

    camel-described :
        (part : Text) (prev : ℕ) (cs : Text)
        → camel_from u part prev (before cs) ++ all_parts u (behind cs)
          ≡ glue part (continues prev cs) (described cs)
    camel-described part prev [] = refl
    camel-described part prev (c ∷ cs) = elim (Bool-cases (c == 0x5f)) [
      | inl e ↦ rw e (ap (λ ps. part ∷ ps) (parts-described cs))
      | inr e ↦ rw e (
          rw (boundary-starts prev c cs) (elim (Bool-cases (starts prev c cs)) [
            | inl s ↦ rw s (ap (λ ps. part ∷ ps) (camel-described (c ∷ []) c cs))
            | inr s ↦ rw s (
                camel-described (part ++ c ∷ []) c cs
                ∙ glue-snoc part c (continues c cs) (described cs))
          ]))
    ]

  abbrev concat : List Text → Text
  concat [] = []
  concat (t ∷ ts) = t ++ concat ts

  abbrev stripped : Text → Text
  stripped [] = []
  stripped (c ∷ cs) = if underscore c then stripped cs else c ∷ stripped cs

  concat-glue :
      (part : Text) (b : Bool) (ps : List Text) → concat (glue part b ps) ≡ part ++ concat ps
  concat-glue part true [] = refl
  concat-glue part true (p ∷ ps) = append_assoc part p (concat ps)
  concat-glue part false ps = refl

  concat-described : (cs : Text) → concat (described cs) ≡ stripped cs
  concat-described [] = refl
  concat-described (c ∷ cs) = elim (Bool-cases (c == 0x5f)) [
    | inl e ↦ rw e (concat-described cs)
    | inr e ↦ rw e (
        concat-glue (c ∷ []) (continues c cs) (described cs)
        ∙ ap (λ r. c ∷ r) (concat-described cs))
  ]

  stripped-le : (cs : Text) → byte_len (stripped cs) ≤ byte_len cs
  unfolding byte_len
  stripped-le [] = omega arith
  stripped-le (c ∷ cs) = elim (Bool-cases (c == 0x5f)) [
    | inl e ↦ rw e (omega (arith, stripped-le cs))
    | inr e ↦ rw e (omega (arith, stripped-le cs))
  ]

  stripped-eq : (cs : Text) → byte_len (stripped cs) ≡ byte_len cs → stripped cs ≡ cs
  unfolding byte_len
  stripped-eq [] h = refl
  stripped-eq (c ∷ cs) h = elim (Bool-cases (c == 0x5f)) [
    | inl e ↦
        let f : byte_len (stripped cs) ≡ len_utf8 c + byte_len cs =
          subst
            (λ b. byte_len (if b then stripped cs else c ∷ stripped cs) ≡ len_utf8 c + byte_len cs)
            e h in
        let one : len_utf8 c ≡ 1 = rw ((==_iff c 0x5f).0 e) (unfold len_utf8 in refl) in
        absurd (omega (arith, f, one, stripped-le cs))
    | inr e ↦
        let f : len_utf8 c + byte_len (stripped cs) ≡ len_utf8 c + byte_len cs =
          subst
            (λ b. byte_len (if b then stripped cs else c ∷ stripped cs) ≡ len_utf8 c + byte_len cs)
            e h in
        rw e (ap (λ r. c ∷ r) (stripped-eq cs (omega (arith, f))))
  ]

  unless-eq :
      (atom : Text) (ps : List Text)
      → concat ps ≡ stripped atom
      → unless_whole u atom ps ≡ unless_atom atom ps
  unfolding unless_whole
  unless-eq atom [] h = refl
  unless-eq atom (p ∷ []) h =
      let same : p ≡ stripped atom = sym (append-nil p) ∙ h in
      elim (Bool-cases (text_eq p atom)) [
        | inl e ↦
            rw (e, eq→== (byte_len p) (byte_len atom) (ap byte_len (text_eq_sound p atom e))) refl
        | inr e ↦
            rw
              (
                e,
                ne→== (byte_len p) (byte_len atom) (λ l. clash (
                    sym (text_eq_refl atom)
                    ∙ ap (λ t. text_eq t atom)
                        (sym (same ∙ stripped-eq atom (ap byte_len (sym same) ∙ l)))
                    ∙ e)),
              )
              refl
      ]
    where
      clash : true ≡ false → ⊥
      clash q = cc
  unless-eq atom (p ∷ q ∷ ps) h = refl

  -- The parts of an identifier are the described ones: underscores end a part and stand in none, and
  -- a part starts at each capital behind a small letter or a digit, and at each capital between a
  -- capital and a small letter; a single part that is the whole atom is left out.
  pub identifier_parts-eq :
      (atom : Text) → identifier_parts u atom ≡ unless_atom atom (described atom)
  unfolding identifier_parts
  identifier_parts-eq atom =
      ap (unless_whole u atom) (parts-described atom)
      ∙ unless-eq atom (described atom) (concat-described atom)
