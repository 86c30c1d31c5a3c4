-- ===== src/Query/Exec/Rounds.antt =====
-- src/query/exec.rs, the outer loop of `eval_phrase`: its rounds give the hits of the phrase.
use ripindex.Common.{
  ℕ, zero, suc, ◌+◌, ◌*◌, ◌<◌, ◌≡◌, refl, sym, ap, ◌∙◌, Option, none, some, List, [], ◌∷◌, length,
  arith, ltb, if◌then◌else◌, All,
}
use ripindex.Query.Source.{Posting, Ascending, PostingSource, Segment, Bm25}
use ripindex.Query.Hits.{Hit}
use ripindex.Query.Exec.{align, all_positions, phrase_loop, phrase_matches}
use ripindex.Query.Exec.Phrase.{gather, at_document, Ascending-from, phrase_hit, phrase_hits}
use ripindex.Query.Exec.Leapfrog.{StartsAt, StandAll, Aligned, align-Aligned}

fewer : (a n m k : ℕ) → m ≡ n → suc a * suc n + n < k → a * suc n + m < k
fewer a n m k e h = grind arith

fewer_left : (a b n k : ℕ) → a < suc b → suc b * suc n + n < k → a * suc n + n < k
fewer_left a b n k e h = grind arith

module _ (source : PostingSource) where
  open source use {Cursor, Stands}

  -- The positions of cursors that all stand at the document `d`.
  all_positions-gather :
      (d : ℕ) (cs : List Cursor) (qs : List (List Posting)) (bm25 : Bm25) (seg : Segment source)
      (avg_len : Bm25.Score bm25)
      → StandAll source cs qs
      → All (StartsAt d) qs
      → StandAll source (all_positions source bm25 seg avg_len cs).0 qs
        × (gather d qs ≡ some (all_positions source bm25 seg avg_len cs).1)
  unfolding all_positions
  all_positions-gather d [] [] bm25 seg avg_len s st = (tt, refl)
  all_positions-gather d [] (q ∷ qs) bm25 seg avg_len s st = absurd s
  all_positions-gather d (c ∷ cs) [] bm25 seg avg_len s st = absurd s
  all_positions-gather d (c ∷ cs) ([] ∷ qs) bm25 seg avg_len s st = absurd st.0
  all_positions-gather d (c ∷ cs) (((e, ps) ∷ q) ∷ qs) bm25 seg avg_len s st =
      let (here, read) = source.positions-here c e ps q s.0 in
      let (stand, all) = all_positions-gather d cs qs bm25 seg avg_len s.1 st.1 in
      ((here, stand), rw (all, read) (ground (arith, st.0)))

  module _ (bm25 : Bm25) (seg : Segment source) (avg_len i : Bm25.Score bm25) where
    abbrev hits : List Posting → List (List Posting) → List (Hit (Bm25.Score bm25))
    hits = phrase_hits source bm25 seg avg_len i

    -- A document that all cursors stand at, with the hits behind it.
    document_round :
        (f rounds target : ℕ) (first : Cursor) (others : List Cursor) (ps : List ℕ)
        (pss : List (List ℕ)) (later : List (Hit (Bm25.Score bm25)))
        → (source.positions first).1 ≡ ps
        → (all_positions source bm25 seg avg_len others).1 ≡ pss
        → phrase_loop source bm25 seg avg_len f rounds i (source.advance first) others ≡ later
        → phrase_loop source bm25 seg avg_len f rounds i
            (source.advance (source.positions first).0)
            (all_positions source bm25 seg avg_len others).0
          ≡ later
        → (live : Option ℕ)
        → elim live [
          | none ↦ phrase_loop source bm25 seg avg_len f rounds i (source.advance first) others
          | some len ↦
              if ltb 0 (
                phrase_matches
                  ((source.positions first).1 ∷ (all_positions source bm25 seg avg_len others).1))
              then record {
                doc = target;
                score =
                    bm25.rate i
                      (phrase_matches (
                        (source.positions first).1
                        ∷ (all_positions source bm25 seg avg_len others).1))
                      len
                      avg_len;
              }
                ∷ phrase_loop source bm25 seg avg_len f rounds i
                    (source.advance (source.positions first).0)
                    (all_positions source bm25 seg avg_len others).0
              else phrase_loop source bm25 seg avg_len f rounds i
                  (source.advance (source.positions first).0)
                  (all_positions source bm25 seg avg_len others).0
        ]
          ≡ phrase_hit source bm25 seg avg_len i target (ps ∷ pss) live later
    document_round f rounds target first others ps pss later p all skipped went none = skipped
    document_round f rounds target first others ps pss later p all skipped went (some len) =
        rw (p, all, went) refl

    phrase_round :
        (f rounds : ℕ) (q : List Posting) (qs : List (List Posting))
        (o : Option (Cursor × List Cursor × ℕ))
        → Aligned source bm25 seg avg_len i q qs o
        → ((c : Cursor) (cs : List Cursor) (r : List Posting) (ls : List (List Posting))
            → length r < length q
            → length ls ≡ length qs
            → Ascending 0 r
            → All (Ascending 0) ls
            → Stands c r
            → StandAll source cs ls
            → phrase_loop source bm25 seg avg_len f rounds i c cs ≡ hits r ls)
        → elim o [
          | none ↦ []
          | some (first, others, target) ↦ elim (seg.doc_len target) [
            | none ↦ phrase_loop source bm25 seg avg_len f rounds i (source.advance first) others
            | some len ↦
                if ltb 0 (
                  phrase_matches
                    ((source.positions first).1 ∷ (all_positions source bm25 seg avg_len others).1))
                then record {
                  doc = target;
                  score =
                      bm25.rate i
                        (phrase_matches (
                          (source.positions first).1
                          ∷ (all_positions source bm25 seg avg_len others).1))
                        len
                        avg_len;
                }
                  ∷ phrase_loop source bm25 seg avg_len f rounds i
                      (source.advance (source.positions first).0)
                      (all_positions source bm25 seg avg_len others).0
                else phrase_loop source bm25 seg avg_len f rounds i
                    (source.advance (source.positions first).0)
                    (all_positions source bm25 seg avg_len others).0
          ]
        ]
          ≡ hits q qs
    phrase_round f rounds q qs none a ih = sym a
    phrase_round f rounds q qs (some (first, others, target)) m ih =
        let (here, read) = source.positions-here first target m.positions m.rest m.first-Stands in
        let (stand, all) =
          all_positions-gather target others m.lists bm25 seg avg_len m.others-StandAll
            m.all_start in
        let low = Ascending-from 0 (target + 1) m.rest (omega arith) m.ascending.1 in
        let go =
          λ (c : Cursor) (cs : List Cursor) (s : Stands c m.rest) (ss : StandAll source cs m.lists).
            ih c cs m.rest m.lists m.shorter m.same_count low m.all_ascending s ss in
        document_round f rounds target first others m.positions
          (all_positions source bm25 seg avg_len others).1 (hits m.rest m.lists) read refl
          (go (source.advance first) others
            (source.advance-Stands first target m.positions m.rest m.first-Stands)
            m.others-StandAll)
          (go (source.advance (source.positions first).0)
            (all_positions source bm25 seg avg_len others).0
            (source.advance-Stands (source.positions first).0 target m.positions m.rest here) stand)
          (seg.doc_len target)
        ∙ sym (
            m.same_hits
            ∙ ap
                (λ o.
                  at_document source bm25 seg avg_len i target m.positions o (hits m.rest m.lists))
                all)

    pub phrase_loop-hits :
        (n f rounds : ℕ) (first : Cursor) (others : List Cursor) (q : List Posting)
        (qs : List (List Posting))
        → length q < f
        → length qs ≡ n
        → length q * suc n + n < rounds
        → Ascending 0 q
        → All (Ascending 0) qs
        → Stands first q
        → StandAll source others qs
        → phrase_loop source bm25 seg avg_len f rounds i first others ≡ hits q qs
    unfolding phrase_loop
    phrase_loop-hits n zero rounds first others q qs hf en hr a aq s ss = absurd (omega arith)
    phrase_loop-hits n (suc f) rounds first others [] qs hf en hr a aq s ss =
        rw (source.doc-end first s, phrase_loop) refl
    phrase_loop-hits n (suc f) rounds first others ((d, ps) ∷ r) qs hf en hr a aq s ss =
        rw (source.doc-here first d ps r s, phrase_loop)
          (phrase_round f rounds ((d, ps) ∷ r) qs
            (align source bm25 seg avg_len rounds first [] others d)
            (align-Aligned source bm25 seg avg_len i n rounds d first [] others ps r [] qs
              (omega arith) (fewer (length r) n (length qs) rounds en hr) (omega arith, a.1) s tt ss
              tt aq tt)
            (λ c cs r' ls less same a' al s' ss'.
              phrase_loop-hits n f rounds c cs r' ls (omega arith) (same ∙ en)
                (fewer_left (length r') (length r) n rounds less hr) a' al s' ss'))
