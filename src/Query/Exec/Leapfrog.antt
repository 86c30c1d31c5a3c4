-- ===== src/Query/Exec/Leapfrog.antt =====
-- src/query/exec.rs, the inner loop of `eval_phrase`: it loses no hit, and ends within its rounds.
use ripindex.Common.{
  ℕ, zero, suc, ◌+◌, ◌*◌, ◌≤◌, ◌<◌, ◌≡◌, refl, sym, ap, ◌∙◌, true, false, Option, none, some, List,
  [], ◌∷◌, ◌++◌, length, arith, ◌==◌, All, All-append, Bool-cases, inl, inr, ==_iff, append_assoc,
  append-nil, length-append,
}
use mathlib.Core.Path.{subst}
use ripindex.Query.Source.{Posting, Ascending, skip, PostingSource, Segment, Bm25}
use ripindex.Query.Hits.{Hit}
use ripindex.Query.Exec.{align}
use ripindex.Query.Exec.Phrase.{
  gather-none, gather_change, positions_at-skip, positions_at-below, Ascending-skip, skip-Ascending,
  length-skip, phrase_hits, phrase_hits_change, phrase_hits-none, phrase_hits-skip,
}

-- The list starts at the document `d`.
abbrev pub StartsAt : ℕ → List Posting → Type 0
StartsAt d [] = ⊥
StartsAt d ((e, ps) ∷ q) = e ≡ d

skip-past : (e d : ℕ) (ps : List ℕ) (q : List Posting) → d < e → skip e ((d, ps) ∷ q) ≡ skip e q
skip-past e d ps q h = ground arith

count_change :
    (front : List (List Posting)) (q q' : List Posting) (back : List (List Posting))
    → length (front ++ (q ∷ back)) ≡ length (front ++ (q' ∷ back))
count_change front q q' back =
    omega (arith, length-append front (q ∷ back), length-append front (q' ∷ back))

fewer_rounds : (a b n m k f : ℕ) → a < b → k ≡ n → b * suc n + suc m < suc f → a * suc n + k < f
fewer_rounds a b n m k f less same h = grind arith

module _ (source : PostingSource) where
  open source use {Cursor, Stands}

  abbrev pub StandAll : List Cursor → List (List Posting) → Type 0
  StandAll [] [] = Unit
  StandAll [] (q ∷ qs) = ⊥
  StandAll (c ∷ cs) [] = ⊥
  StandAll (c ∷ cs) (q ∷ qs) = Stands c q × StandAll cs qs

  pub StandAll-append :
      (cs ds : List Cursor) (qs rs : List (List Posting))
      → StandAll cs qs
      → StandAll ds rs
      → StandAll (cs ++ ds) (qs ++ rs)
  StandAll-append [] ds [] rs s t = t
  StandAll-append [] ds (q ∷ qs) rs s t = absurd s
  StandAll-append (c ∷ cs) ds [] rs s t = absurd s
  StandAll-append (c ∷ cs) ds (q ∷ qs) rs s t = (s.0, StandAll-append cs ds qs rs s.1 t)

  module _ (bm25 : Bm25) (seg : Segment source) (avg_len i : Bm25.Score bm25) where
    abbrev pub hits : List Posting → List (List Posting) → List (Hit (Bm25.Score bm25))
    hits = phrase_hits source bm25 seg avg_len i

    -- What the loop promises of the lists `q` and `qs` it began on.
    pub record Meets (q : List Posting) (qs : List (List Posting)) (first : Cursor)
        (others : List Cursor) (target : ℕ) : Type 0 where
      pub positions : List ℕ
      pub rest : List Posting
      pub lists : List (List Posting)
      pub first-Stands : Stands first ((target, positions) ∷ rest)
      pub others-StandAll : StandAll others lists
      pub ascending : Ascending target ((target, positions) ∷ rest)
      pub all_ascending : All (Ascending 0) lists
      pub all_start : All (StartsAt target) lists
      pub same_count : length lists ≡ length qs
      pub shorter : length rest < length q
      pub same_hits : hits q qs ≡ hits ((target, positions) ∷ rest) lists

    abbrev pub Aligned :
        List Posting → List (List Posting) → Option (Cursor × List Cursor × ℕ) → Type 0
    Aligned q qs none = hits q qs ≡ []
    Aligned q qs (some (first, others, target)) = Meets q qs first others target

    Aligned-from :
        (q q' : List Posting) (qs qs' : List (List Posting)) (o : Option (Cursor × List Cursor × ℕ))
        → hits q qs ≡ hits q' qs'
        → length q' ≤ length q
        → length qs' ≡ length qs
        → Aligned q' qs' o
        → Aligned q qs o
    Aligned-from q q' qs qs' none e h n a = e ∙ a
    Aligned-from q q' qs qs' (some (first, others, target)) e h n a = record {
      positions = a.positions;
      rest = a.rest;
      lists = a.lists;
      first-Stands = a.first-Stands;
      others-StandAll = a.others-StandAll;
      ascending = a.ascending;
      all_ascending = a.all_ascending;
      all_start = a.all_start;
      same_count = a.same_count ∙ n;
      shorter = omega (arith, a.shorter);
      same_hits = e ∙ a.same_hits;
    }

    -- Another cursor is at `e`, behind the target: the first cursor goes there.
    overshoot :
        (f e : ℕ) (first : Cursor) (others : List Cursor) (q q' : List Posting)
        (qs : List (List Posting))
        → hits q' qs ≡ hits q qs
        → length q' ≤ length q
        → Stands first q'
        → Ascending e q'
        → ((d : ℕ) (ps : List ℕ) (rest : List Posting)
            → q' ≡ (d, ps) ∷ rest
            → Aligned ((d, ps) ∷ rest) qs (align source bm25 seg avg_len f first [] others d))
        → Aligned q qs (elim (source.doc first) [
          | none ↦ none
          | some d ↦ align source bm25 seg avg_len f first [] others d
        ])
    overshoot f e first others q [] qs same h s a ih = rw (source.doc-end first s) (sym same)
    overshoot f e first others q ((d, ps) ∷ rest) qs same h s a ih =
        rw (source.doc-here first d ps rest s)
          (Aligned-from q ((d, ps) ∷ rest) qs qs _ (sym same) h refl (ih d ps rest refl))

    -- One round: the cursor `c` was moved to the target.
    visit :
        (f target : ℕ) (first c : Cursor) (before after : List Cursor) (ps : List ℕ)
        (r q : List Posting) (qb qa : List (List Posting))
        → Ascending target ((target, ps) ∷ r)
        → Stands first ((target, ps) ∷ r)
        → Stands c q
        → Ascending target q
        → (StartsAt target q
            → Aligned
                ((target, ps) ∷ r)
                (qb ++ (q ∷ qa))
                (align source bm25 seg avg_len f first (before ++ (c ∷ [])) after target))
        → ((e d0 : ℕ) (ps0 : List ℕ) (r0 : List Posting)
            → length r0 < length r
            → Ascending d0 ((d0, ps0) ∷ r0)
            → Stands (source.seek first e) ((d0, ps0) ∷ r0)
            → Aligned ((d0, ps0) ∷ r0) (qb ++ (q ∷ qa)) (
                align source bm25 seg avg_len f
                  (source.seek first e)
                  []
                  (before ++ (c ∷ after))
                  d0))
        → Aligned ((target, ps) ∷ r) (qb ++ (q ∷ qa)) (elim (source.doc c) [
          | none ↦ none
          | some d ↦ elim (d == target) [
            | true ↦ align source bm25 seg avg_len f first (before ++ (c ∷ [])) after target
            | false ↦ elim (source.doc (source.seek first d)) [
              | none ↦ none
              | some d0 ↦
                  align source bm25 seg avg_len f
                    (source.seek first d)
                    []
                    (before ++ (c ∷ after))
                    d0
            ]
          ]
        ])
    visit f target first c before after ps r [] qb qa a s t aq same on = rw (source.doc-end c t) (
        phrase_hits-none source bm25 seg avg_len i target ((target, ps) ∷ r) (qb ++ ([] ∷ qa)) a
          (λ d _. gather-none d qb [] qa refl))
    visit f target first c before after ps r ((e, es) ∷ q) qb qa a s t aq same on =
        rw (source.doc-here c e es q t) (elim (Bool-cases (e == target)) [
          | inl eq ↦ rw eq (same ((==_iff e target).0 eq))
          | inr ne ↦
              let behind : target < e = ground (arith, ne, aq.0) in
              let q0 = skip e ((target, ps) ∷ r) in
              rw ne (
                overshoot f e (source.seek first e) (before ++ (c ∷ after)) ((target, ps) ∷ r) q0
                  (qb ++ (((e, es) ∷ q) ∷ qa))
                  (phrase_hits-skip source bm25 seg avg_len i e ((target, ps) ∷ r) _ (λ d less.
                    gather-none d qb ((e, es) ∷ q) qa
                      (positions_at-below e d ((e, es) ∷ q) less (omega arith, aq.1))))
                  (length-skip e ((target, ps) ∷ r))
                  (source.seek-Stands first e ((target, ps) ∷ r) s)
                  (skip-Ascending target e ((target, ps) ∷ r) a)
                  (λ d0 ps0 r0 here.
                    let moved = source.seek-Stands first e ((target, ps) ∷ r) s in
                    let risen = skip-Ascending target e ((target, ps) ∷ r) a in
                    on e d0 ps0 r0
                      (omega (
                        arith,
                        length-skip e r,
                        ap length (sym (skip-past e target ps r behind) ∙ here),
                      ))
                      (omega arith, (subst (Ascending e) here risen).1)
                      (subst (Stands (source.seek first e)) here moved)))
        ])

    pub align-Aligned :
        (n f target : ℕ) (first : Cursor) (before after : List Cursor) (ps : List ℕ)
        (r : List Posting) (qb qa : List (List Posting))
        → length qb + length qa ≡ n
        → length r * suc n + length qa < f
        → Ascending target ((target, ps) ∷ r)
        → Stands first ((target, ps) ∷ r)
        → StandAll before qb
        → StandAll after qa
        → All (Ascending 0) qb
        → All (Ascending 0) qa
        → All (StartsAt target) qb
        → Aligned
            ((target, ps) ∷ r)
            (qb ++ qa)
            (align source bm25 seg avg_len f first before after target)
    unfolding align
    align-Aligned n zero target first before after ps r qb qa en ef a s sb sa ab aa st =
        absurd (omega arith)
    align-Aligned n (suc f) target first before [] ps r qb [] en ef a s sb sa ab aa st = record {
      positions = ps;
      rest = r;
      lists = qb;
      first-Stands = s;
      others-StandAll = sb;
      ascending = a;
      all_ascending = ab;
      all_start = st;
      same_count = ap length (sym (append-nil qb));
      shorter = omega arith;
      same_hits = ap (hits ((target, ps) ∷ r)) (append-nil qb);
    }
    align-Aligned n (suc f) target first before [] ps r qb (q ∷ qa) en ef a s sb sa ab aa st =
        absurd sa
    align-Aligned n (suc f) target first before (c ∷ after) ps r qb [] en ef a s sb sa ab aa st =
        absurd sa
    align-Aligned n (suc f) target first before (c ∷ after) ps r qb (q ∷ qa) en ef a s sb sa ab aa
          st =
        let q' = skip target q in
        let moved = source.seek-Stands c target q sa.0 in
        let lower = Ascending-skip 0 target q aa.0 in
        Aligned-from ((target, ps) ∷ r) ((target, ps) ∷ r) (qb ++ (q ∷ qa)) (qb ++ (q' ∷ qa)) _
          (phrase_hits_change source bm25 seg avg_len i target ((target, ps) ∷ r) _ _ a
            (λ d le. gather_change d qb q q' qa (sym (positions_at-skip target d q le))))
          (omega arith) (count_change qb q' q qa)
          (visit f target first (source.seek c target) before after ps r q' qb qa a s moved
            (skip-Ascending 0 target q aa.0)
            (λ starts.
              subst
                (λ l. Aligned ((target, ps) ∷ r) l (
                  align source bm25 seg avg_len f first (before ++ (source.seek c target ∷ []))
                    after target))
                (append_assoc qb (q' ∷ []) qa)
                (align-Aligned n f target first (before ++ (source.seek c target ∷ [])) after ps r
                  (qb ++ (q' ∷ [])) qa (omega (arith, length-append qb (q' ∷ []))) (omega arith) a s
                  (StandAll-append before (source.seek c target ∷ []) qb (q' ∷ []) sb (moved, tt))
                  sa.1 (All-append (Ascending 0) qb (q' ∷ []) ab (lower, tt)) aa.1
                  (All-append (StartsAt target) qb (q' ∷ []) st (starts, tt))))
            (λ e d0 ps0 r0 less a0 s0.
              align-Aligned n f d0 (source.seek first e) []
                (before ++ (source.seek c target ∷ after)) ps0 r0 [] (qb ++ (q' ∷ qa))
                (omega (arith, length-append qb (q' ∷ qa)))
                (fewer_rounds (length r0) (length r) n (length qa) (length (qb ++ (q' ∷ qa))) f less
                  (omega (arith, length-append qb (q' ∷ qa))) ef)
                a0 s0 tt
                (StandAll-append before (source.seek c target ∷ after) qb (q' ∷ qa) sb
                  (moved, sa.1))
                tt (All-append (Ascending 0) qb (q' ∷ qa) ab (lower, aa.1)) tt))
