-- ===== src/Index/Memory/Gallop.antt =====
-- src/index/memory.rs, `MemPostingCursor`: the galloping `seek` stops where a walk would, and the
-- cursor is a `PostingCursor`.
use ripindex.Common.{
  ℕ, zero, suc, ◌+◌, ◌≤◌, ◌<◌, ◌≡◌, refl, ap, ◌∙◌, false, Option, none, some, List, [], ◌∷◌, length,
  get_elem?, drop, drop-nil, lt→ltb, ge→ltb, leb, inl, inr, Bool-cases, arith, All,
}
use ripindex.Index.Postings.{Posting, Ascending, skip, PostingSource, InOrder}
use ripindex.Index.Memory.{MemPostingCursor, doc_at, doc, advance, gallop, settle, seek, positions}
use ripindex.Index.Memory.Bracket.{gallop-Bracket, settle-skip}

-- The postings still to come, of a list in order.
pub record Stands (c : MemPostingCursor) (postings : List Posting) : Type 0 where
  pub left : drop c.idx c.postings ≡ postings
  pub ordered : Ascending 0 c.postings

drop-some :
    (i : ℕ) (postings : List Posting) (p : Posting) (rest : List Posting)
    → drop i postings ≡ p ∷ rest
    → (get_elem? postings i ≡ some p)
      × (i < length postings)
      × (drop (suc i) postings ≡ rest)
      × (doc_at postings i ≡ p.0)
unfolding doc_at
drop-some i [] p rest h = absurd (clash (drop-nil i))
  where
    clash : ◌≡◌ {A = List Posting} (drop i []) [] → ⊥
    clash e = cc
drop-some zero ((d, ps) ∷ r) p rest h = ground (arith, h)
drop-some (suc i) ((d, ps) ∷ r) p rest h =
    let (a, b, c, e) = drop-some i r p rest h in (a, omega arith, c, e)

drop-none :
    (i : ℕ) (postings : List Posting)
    → drop i postings ≡ []
    → (get_elem? postings i ≡ none) × (length postings ≤ i)
drop-none i [] h = (refl, omega arith)
drop-none zero (p ∷ r) h = cc
drop-none (suc i) (p ∷ r) h = let (a, b) = drop-none i r h in (a, omega arith)

pub doc-end : (c : MemPostingCursor) → Stands c [] → doc c ≡ none
unfolding doc
doc-end c s = rw ((drop-none c.idx c.postings s.left).0, doc)

pub doc-here :
    (c : MemPostingCursor) (d : ℕ) (ps : List ℕ) (rest : List Posting)
    → Stands c ((d, ps) ∷ rest)
    → doc c ≡ some d
unfolding doc
doc-here c d ps rest s = rw ((drop-some c.idx c.postings (d, ps) rest s.left).0, doc)

abbrev pub here_or_none : Option (List ℕ) → List ℕ
here_or_none none = []
here_or_none (some ps) = ps

pub positions-here :
    (c : MemPostingCursor) (d : ℕ) (ps : List ℕ) (rest : List Posting)
    → Stands c ((d, ps) ∷ rest)
    → positions c ≡ some ps
unfolding positions
positions-here c d ps rest s = rw ((drop-some c.idx c.postings (d, ps) rest s.left).0, positions)

-- A step from a posting leaves the postings behind it.
pub advance-Stands :
    (c : MemPostingCursor) (d : ℕ) (ps : List ℕ) (rest : List Posting)
    → Stands c ((d, ps) ∷ rest)
    → Stands (advance c) rest
unfolding advance
advance-Stands c d ps rest s =
    let (at, inside, left, _) = drop-some c.idx c.postings (d, ps) rest s.left in
    let next : c.idx + 1 ≡ suc c.idx = omega arith in
    rw (lt→ltb _ _ inside) (record { left = rw next left; ordered = s.ordered })

-- On postings whose documents increase, the galloping search of `seek` leaves the postings that a
-- walk to the first document at or above the target leaves, wherever the cursor stood.
pub seek-Stands :
    (c : MemPostingCursor) (target : ℕ) (postings : List Posting)
    → Stands c postings
    → Stands (seek c target) (skip target postings)
unfolding seek
seek-Stands c target [] s = rw (ge→ltb _ _ (drop-none c.idx c.postings s.left).1) s
seek-Stands c target ((d, ps) ∷ rest) s =
    let (_, inside, _, here) = drop-some c.idx c.postings (d, ps) rest s.left in
    rw (lt→ltb _ _ inside, here)
      (elim (Bool-cases (leb target d)) [
        | inl at ↦ rw at s
        | inr before ↦ rw before (record { left = moved inside here before; ordered = s.ordered })
      ])
  where
    moved :
        c.idx < length c.postings
        → doc_at c.postings c.idx ≡ d
        → leb target d ≡ false
        → drop
            (settle c.postings target
              (gallop (length c.postings) c.postings target c.idx 1 (c.idx + 1)))
            c.postings
          ≡ skip target rest
    moved inside here before =
        settle-skip c.postings target c.idx _ _ s.ordered (
          gallop-Bracket (length c.postings) c.postings target c.idx c.idx 1 (c.idx + 1)
            (omega arith) (omega arith) (omega arith) (omega arith) inside
            (ground (arith, here, before)))
        ∙ ap (skip target) s.left
        ∙ rw before refl

-- The lists in memory, whose documents and positions increase, read by `MemPostingCursor`.
abbrev pub mem_source : PostingSource
mem_source = record {
  PostingList =
      (postings : List Posting) × Ascending 0 postings
      × All (λ posting. InOrder 0 posting.1) postings;
  Cursor = MemPostingCursor;
  doc_freq = λ l. length l.0;
  cursor = λ l. record { postings = l.0; idx = 0 };
  doc = doc;
  advance = advance;
  seek = seek;
  positions = λ c. (c, here_or_none (positions c));
  term_freq = λ c. (c, length (here_or_none (positions c)));
  holds = λ l. l.0;
  Stands = Stands;
  holds-Ascending = λ l. l.1;
  holds-InOrder = λ l. l.2;
  doc_freq-holds = λ l. refl;
  cursor-Stands = λ l. record { left = refl; ordered = l.1 };
  doc-end = doc-end;
  doc-here = doc-here;
  advance-Stands = advance-Stands;
  seek-Stands = seek-Stands;
  positions-here = λ c d ps rest s. (s, ap here_or_none (positions-here c d ps rest s));
  term_freq-here =
      λ c d ps rest s. (s, ap (λ o. length (here_or_none o)) (positions-here c d ps rest s));
}

-- On a list whose documents increase, the doubling steps and the binary search of `seek` leave the
-- postings that a walk to the first document at or above the target leaves, wherever the cursor
-- stands, also behind the end.
pub seek-skip :
    (c : MemPostingCursor) (target : ℕ)
    → Ascending 0 c.postings
    → drop (seek c target).idx (seek c target).postings ≡ skip target (drop c.idx c.postings)
seek-skip c target a =
    (seek-Stands c target (drop c.idx c.postings) (record { left = refl; ordered = a })).left
