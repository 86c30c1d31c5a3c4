-- ===== src/Query/Exec/Phrases.antt =====
-- src/query/exec.rs, `eval_phrase`: leapfrogging over the cursors gives the hits that looking up
-- each document of the first term gives.
use ripindex.Common.{
  ℕ, suc, ◌+◌, ◌*◌, ◌<◌, ◌≡◌, refl, sym, ap, Option, none, some, List, [], ◌∷◌, length, map, arith,
  All,
}
use mathlib.Core.Path.{subst}
use ripindex.Query.Syntax.{Text}
use ripindex.Query.Source.{Ascending, PostingSource, Segment, Bm25}
use ripindex.Query.Hits.{Hit}
use ripindex.Query.Hits.Lookup.{Rising}
use ripindex.Query.Exec.{Lists, Stats, df_of, all_lists, run_phrase, eval_phrase}
use ripindex.Query.Exec.Phrase.{phrase_hits, phrase_hits-Rising}
use ripindex.Query.Exec.Leapfrog.{StandAll}
use ripindex.Query.Exec.Rounds.{phrase_loop-hits}

module _ (source : PostingSource) where
  open source use {Cursor, Stands}

  all_StandAll :
      (ls : List (PostingSource.PostingList source))
      → StandAll source (map source.cursor ls) (map source.holds ls)
  all_StandAll [] = tt
  all_StandAll (l ∷ ls) = (source.cursor-Stands l, all_StandAll ls)

  All-Ascending :
      (ls : List (PostingSource.PostingList source)) → All (Ascending 0) (map source.holds ls)
  All-Ascending [] = tt
  All-Ascending (l ∷ ls) = (source.holds-Ascending l, All-Ascending ls)

  same_count :
      (ls : List (PostingSource.PostingList source)) → length (map source.holds ls) ≡ length ls
  same_count [] = refl
  same_count (l ∷ ls) = ap suc (same_count ls)

module _ (source : PostingSource) (bm25 : Bm25) (seg : Segment source) (lists : Lists source bm25)
    (stats : Stats source bm25) where
  open bm25 use {Score, idf, sum}

  -- The hits of a phrase whose terms may have lists.
  abbrev pub phrase_of : Score → Option (List (PostingSource.PostingList source)) → List (Hit Score)
  phrase_of i none = []
  phrase_of i (some []) = []
  phrase_of i (some (l ∷ ls)) =
      phrase_hits source bm25 seg stats.avg_len i (source.holds l) (map source.holds ls)

  run_phrase-eq :
      (i : Score) (ls : List (PostingSource.PostingList source))
      → run_phrase source bm25 seg lists stats i ls ≡ phrase_of i (some ls)
  unfolding run_phrase
  run_phrase-eq i [] = refl
  run_phrase-eq i (l ∷ ls) =
      phrase_loop-hits source bm25 seg stats.avg_len i (length ls) (source.doc_freq l + 1)
        (source.doc_freq l * (length ls + 1) + length ls + 1) (source.cursor l)
        (map source.cursor ls) (source.holds l) (map source.holds ls)
        (omega (arith, source.doc_freq-holds l)) (same_count source ls)
        (enough (source.doc_freq l) (length (source.holds l)) (length ls) (source.doc_freq-holds l))
        (source.holds-Ascending l) (All-Ascending source ls) (source.cursor-Stands l)
        (all_StandAll source ls)
    where
      enough : (a b n : ℕ) → a ≡ b → b * suc n + n < a * (n + 1) + n + 1
      enough a b n e = grind arith

  -- The sum of the idf of the terms.
  abbrev pub phrase_idf : List Text → Score
  phrase_idf terms = sum (map (λ w. idf stats.n (df_of source bm25 stats w)) terms)

  -- `eval_phrase` on two terms or more, whose cursors leap from document to document, ends within
  -- its rounds and gives the hits that looking up every document of the first term in the lists of
  -- the others gives, in the order of the documents; none if a term has no list.
  pub eval_phrase_lem :
      (t u : Text) (ts : List Text)
      → (eval_phrase source bm25 seg lists stats (t ∷ u ∷ ts)
          ≡ phrase_of
              (phrase_idf (t ∷ u ∷ ts))
              (all_lists source bm25 seg lists stats (t ∷ u ∷ ts)))
        × Rising 0 (eval_phrase source bm25 seg lists stats (t ∷ u ∷ ts))
  unfolding eval_phrase
  eval_phrase_lem t u ts = go (all_lists source bm25 seg lists stats (t ∷ u ∷ ts))
    where
      rising :
          (i : Score) (o : Option (List (PostingSource.PostingList source)))
          → Rising 0 (phrase_of i o)
      rising i none = tt
      rising i (some []) = tt
      rising i (some (l ∷ ls)) =
          phrase_hits-Rising source bm25 seg stats.avg_len i 0 (source.holds l)
            (map source.holds ls) (source.holds-Ascending l)

      go :
          (o : Option (List (PostingSource.PostingList source)))
          → (elim o [
            | none ↦ []
            | some ls ↦ run_phrase source bm25 seg lists stats (phrase_idf (t ∷ u ∷ ts)) ls
          ]
              ≡ phrase_of (phrase_idf (t ∷ u ∷ ts)) o)
            × Rising 0 (elim o [
              | none ↦ []
              | some ls ↦ run_phrase source bm25 seg lists stats (phrase_idf (t ∷ u ∷ ts)) ls
            ])
      go none = (refl, tt)
      go (some ls) =
          let same = run_phrase-eq (phrase_idf (t ∷ u ∷ ts)) ls in
          (same, subst (Rising 0) (sym same) (rising (phrase_idf (t ∷ u ∷ ts)) (some ls)))
