-- ===== src/Query/Exec/Phrase.antt =====
-- src/query/exec.rs, `eval_phrase`, without cursors: each document of the first term is looked up
-- in the lists of the others.
use ripindex.Common.{
  ℕ, ◌+◌, ◌≤◌, ◌<◌, ◌≡◌, refl, ap, Option, none, some, List, [], ◌∷◌, ◌++◌, length, arith, ltb, leb,
  ◌==◌, if◌then◌else◌, Bool-cases, inl, inr, leb→le,
}
use ripindex.Query.Source.{Posting, Ascending, skip, PostingSource, Segment, Bm25}
use ripindex.Query.Hits.{Hit}
use ripindex.Query.Hits.Lookup.{Rising, Rising-from}
use ripindex.Query.Exec.{phrase_matches}

-- The positions in the document `d`.
abbrev pub positions_at : ℕ → List Posting → Option (List ℕ)
positions_at d [] = none
positions_at d ((e, ps) ∷ rest) = if e == d then some ps else positions_at d rest

abbrev pub push_positions : Option (List ℕ) → Option (List (List ℕ)) → Option (List (List ℕ))
push_positions none pss = none
push_positions (some ps) none = none
push_positions (some ps) (some pss) = some (ps ∷ pss)

-- The positions in the document `d`, if it is in all the lists.
abbrev pub gather : ℕ → List (List Posting) → Option (List (List ℕ))
gather d [] = some []
gather d (q ∷ qs) = push_positions (positions_at d q) (gather d qs)

pub positions_at-skip :
    (t d : ℕ) (q : List Posting) → t ≤ d → positions_at d (skip t q) ≡ positions_at d q
positions_at-skip t d [] h = refl
positions_at-skip t d ((e, ps) ∷ q) h = ground (arith, positions_at-skip t d q)

pub positions_at-below :
    (lo d : ℕ) (q : List Posting) → d < lo → Ascending lo q → positions_at d q ≡ none
positions_at-below lo d [] h a = refl
positions_at-below lo d ((e, ps) ∷ q) h a = ground (arith, positions_at-below (e + 1) d q)

pub Ascending-from : (lo lo' : ℕ) (q : List Posting) → lo ≤ lo' → Ascending lo' q → Ascending lo q
Ascending-from lo lo' [] h a = tt
Ascending-from lo lo' ((e, ps) ∷ q) h a = (omega arith, a.1)

pub Ascending-skip : (lo t : ℕ) (q : List Posting) → Ascending lo q → Ascending lo (skip t q)
Ascending-skip lo t [] a = tt
Ascending-skip lo t ((e, ps) ∷ q) a = elim (Bool-cases (leb t e)) [
  | inl here ↦ rw here a
  | inr on ↦
      rw on (Ascending-from lo (e + 1) (skip t q) (omega arith) (Ascending-skip (e + 1) t q a.1))
]

-- What is left starts at the target or above it.
pub skip-Ascending : (lo t : ℕ) (q : List Posting) → Ascending lo q → Ascending t (skip t q)
skip-Ascending lo t [] a = tt
skip-Ascending lo t ((e, ps) ∷ q) a = elim (Bool-cases (leb t e)) [
  | inl here ↦ rw here (leb→le t e here, a.1)
  | inr on ↦ rw on (skip-Ascending (e + 1) t q a.1)
]

pub length-skip : (t : ℕ) (q : List Posting) → length (skip t q) ≤ length q
length-skip t [] = omega arith
length-skip t ((e, ps) ∷ q) = ground (arith, length-skip t q)

pub gather-none :
    (d : ℕ) (front : List (List Posting)) (q : List Posting) (back : List (List Posting))
    → positions_at d q ≡ none
    → gather d (front ++ (q ∷ back)) ≡ none
gather-none d [] q back h = rw h refl
gather-none d (p ∷ front) q back h = rw (gather-none d front q back h) (stop (positions_at d p))
  where
    stop : (o : Option (List ℕ)) → push_positions o none ≡ none
    stop none = refl
    stop (some ps) = refl

pub gather_change :
    (d : ℕ) (front : List (List Posting)) (q q' : List Posting) (back : List (List Posting))
    → positions_at d q ≡ positions_at d q'
    → gather d (front ++ (q ∷ back)) ≡ gather d (front ++ (q' ∷ back))
gather_change d [] q q' back h = ap (λ o. push_positions o (gather d back)) h
gather_change d (p ∷ front) q q' back h =
    ap (λ o. push_positions (positions_at d p) o) (gather_change d front q q' back h)

module _ (source : PostingSource) (bm25 : Bm25) (seg : Segment source) (avg_len : Bm25.Score bm25)
    (i : Bm25.Score bm25) where
  open bm25 use {Score, rate}

  -- The hit of a document whose positions in the lists are known, if it is one, and later hits.
  abbrev pub phrase_hit : ℕ → List (List ℕ) → Option ℕ → List (Hit Score) → List (Hit Score)
  phrase_hit d pss none later = later
  phrase_hit d pss (some len) later =
      if ltb 0 (phrase_matches pss)
      then record { doc = d; score = rate i (phrase_matches pss) len avg_len } ∷ later
      else later

  abbrev pub at_document : ℕ → List ℕ → Option (List (List ℕ)) → List (Hit Score) → List (Hit Score)
  at_document d ps none later = later
  at_document d ps (some pss) later = phrase_hit d (ps ∷ pss) (seg.doc_len d) later

  -- The hits of a phrase: the documents that are in all lists, have a length, and hold the terms at
  -- positions that follow each other.
  abbrev pub phrase_hits : List Posting → List (List Posting) → List (Hit Score)
  phrase_hits [] qs = []
  phrase_hits ((d, ps) ∷ rest) qs = at_document d ps (gather d qs) (phrase_hits rest qs)

  pub phrase_hits_change :
      (lo : ℕ) (q : List Posting) (qs qs' : List (List Posting))
      → Ascending lo q
      → ((d : ℕ) → lo ≤ d → gather d qs ≡ gather d qs')
      → phrase_hits q qs ≡ phrase_hits q qs'
  phrase_hits_change lo [] qs qs' a same = refl
  phrase_hits_change lo ((d, ps) ∷ rest) qs qs' a same =
      rw (
        same d a.0,
        phrase_hits_change (d + 1) rest qs qs' a.1 (λ e le. same e (omega (arith, a.0))),
      )

  pub phrase_hits-none :
      (lo : ℕ) (q : List Posting) (qs : List (List Posting))
      → Ascending lo q
      → ((d : ℕ) → lo ≤ d → gather d qs ≡ none)
      → phrase_hits q qs ≡ []
  phrase_hits-none lo [] qs a gone = refl
  phrase_hits-none lo ((d, ps) ∷ rest) qs a gone =
      rw (gone d a.0) (phrase_hits-none (d + 1) rest qs a.1 (λ e le. gone e (omega (arith, a.0))))

  pub phrase_hits-skip :
      (t : ℕ) (q : List Posting) (qs : List (List Posting))
      → ((d : ℕ) → d < t → gather d qs ≡ none)
      → phrase_hits (skip t q) qs ≡ phrase_hits q qs
  phrase_hits-skip t [] qs gone = refl
  phrase_hits-skip t ((d, ps) ∷ rest) qs gone = elim (Bool-cases (leb t d)) [
    | inl here ↦ rw here
    | inr on ↦ rw (on, gone d (ground (arith, on))) (phrase_hits-skip t rest qs gone)
  ]

  phrase_hit-Rising :
      (d lo : ℕ) (pss : List (List ℕ)) (live : Option ℕ) (later : List (Hit Score))
      → lo ≤ d
      → Rising (d + 1) later
      → Rising lo (phrase_hit d pss live later)
  phrase_hit-Rising d lo pss none later h r = Rising-from lo (d + 1) later (omega arith) r
  phrase_hit-Rising d lo pss (some len) later h r = ground (arith, Rising-from lo (d + 1) later)

  pub phrase_hits-Rising :
      (lo : ℕ) (q : List Posting) (qs : List (List Posting))
      → Ascending lo q
      → Rising lo (phrase_hits q qs)
  phrase_hits-Rising lo [] qs a = tt
  phrase_hits-Rising lo ((d, ps) ∷ rest) qs a =
      go (gather d qs) (phrase_hits-Rising (d + 1) rest qs a.1)
    where
      go :
          (o : Option (List (List ℕ)))
          → Rising (d + 1) (phrase_hits rest qs)
          → Rising lo (at_document d ps o (phrase_hits rest qs))
      go none r = Rising-from lo (d + 1) (phrase_hits rest qs) (omega (arith, a.0)) r
      go (some pss) r =
          phrase_hit-Rising d lo (ps ∷ pss) (seg.doc_len d) (phrase_hits rest qs) a.0 r
