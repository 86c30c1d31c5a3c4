-- ===== src/Index/Memory/Build.antt =====
-- src/index/memory.rs, `MemPostingList::push`: it records a position and keeps the list in order.
use ripindex.Common.{
  ℕ, ◌+◌, ◌≤◌, ◌<◌, ◌≡◌, Bool, true, false, ◌&&◌, ◌||◌, List, [], ◌∷◌, ◌==◌, ◌⊎◌, inl, inr,
  Bool-cases, arith,
}
use ripindex.Index.Postings.{Posting}
use ripindex.Index.Memory.{push_position, push}

-- The positions strictly increase, from `lo` on.
abbrev pub From : ℕ → List ℕ → Type 0
From lo [] = Unit
From lo (p ∷ ps) = (lo ≤ p) × From (p + 1) ps

-- Documents strictly increase, and so do the positions of each.
abbrev pub InOrder : ℕ → List Posting → Type 0
InOrder lo [] = Unit
InOrder lo ((d, ps) ∷ rest) = (lo ≤ d) × From 0 ps × InOrder (d + 1) rest

-- The last position, if there is one, is not above `p`.
abbrev pub EndsBy : List ℕ → ℕ → Type 0
EndsBy [] p = Unit
EndsBy (q ∷ []) p = q ≤ p
EndsBy (q ∷ r ∷ qs) p = EndsBy (r ∷ qs) p

-- What the debug assertions demand: the last document is before `d`, or is `d` and has no position
-- above `p`.
abbrev pub MayPush : List Posting → ℕ → ℕ → Type 0
MayPush [] d p = Unit
MayPush ((e, ps) ∷ []) d p = (e < d) ⊎ ((e ≡ d) × EndsBy ps p)
MayPush (x ∷ y ∷ rest) d p = MayPush (y ∷ rest) d p

abbrev pub has_position : ℕ → List ℕ → Bool
has_position q [] = false
has_position q (p ∷ ps) = (p == q) || has_position q ps

-- The document has the position.
abbrev pub occurs : ℕ → ℕ → List Posting → Bool
occurs e q [] = false
occurs e q ((d, ps) ∷ rest) = ((d == e) && has_position q ps) || occurs e q rest

push_position-From_tail :
    (lo p q : ℕ) (ps : List ℕ)
    → From lo (q ∷ ps)
    → EndsBy (q ∷ ps) p
    → From lo (push_position (q ∷ ps) p)
unfolding push_position
push_position-From_tail lo p q [] f e = ground arith
push_position-From_tail lo p q (r ∷ qs) f e = (f.0, push_position-From_tail (q + 1) p r qs f.1 e)

push_position-From : (p : ℕ) (ps : List ℕ) → From 0 ps → EndsBy ps p → From 0 (push_position ps p)
unfolding push_position
push_position-From p [] f e = (omega arith, tt)
push_position-From p (q ∷ qs) f e = push_position-From_tail 0 p q qs f e

has_position-push_position :
    (q p : ℕ) (ps : List ℕ) → has_position q (push_position ps p) ≡ (has_position q ps || (p == q))
unfolding push_position
has_position-push_position q p [] = ground arith
has_position-push_position q p (x ∷ []) = ground arith
has_position-push_position q p (x ∷ y ∷ xs) =
    ground (arith, has_position-push_position q p (y ∷ xs))

push-InOrder_tail :
    (lo d p e : ℕ) (ps : List ℕ) (rest : List Posting)
    → InOrder lo ((e, ps) ∷ rest)
    → MayPush ((e, ps) ∷ rest) d p
    → InOrder lo (push ((e, ps) ∷ rest) d p)
unfolding push
push-InOrder_tail lo d p e ps [] o h = elim (Bool-cases (e == d)) [
  | inl same ↦ rw same (o.0, push_position-From p ps o.1 (ends same), tt)
  | inr other ↦ rw other (o.0, o.1, (after other, (omega arith, tt), tt))
]
  where
    ends : (e == d) ≡ true → EndsBy ps p
    ends same = elim h [ inl below ↦ ground arith | inr at ↦ at.1 ]

    after : (e == d) ≡ false → e + 1 ≤ d
    after other = elim h [ inl below ↦ omega arith | inr at ↦ ground arith ]
push-InOrder_tail lo d p e ps ((e2, ps2) ∷ rest) o h =
    (o.0, o.1, push-InOrder_tail (e + 1) d p e2 ps2 rest o.2 h)

push-InOrder : (d p : ℕ) (l : List Posting) → InOrder 0 l → MayPush l d p → InOrder 0 (push l d p)
unfolding push
push-InOrder d p [] o h = (omega arith, (omega arith, tt), tt)
push-InOrder d p ((e, ps) ∷ rest) o h = push-InOrder_tail 0 d p e ps rest o h

occurs-push :
    (e q d p : ℕ) (l : List Posting)
    → occurs e q (push l d p) ≡ (occurs e q l || ((d == e) && (p == q)))
unfolding push
occurs-push e q d p [] = ground arith
occurs-push e q d p ((c, ps) ∷ []) = ground (arith, has_position-push_position q p ps)
occurs-push e q d p ((c, ps) ∷ y ∷ rest) = ground (arith, occurs-push e q d p (y ∷ rest))

-- A position pushed as the assertions of `push` demand keeps the documents and the positions of each
-- strictly increasing, and the list then has the occurrences it had and the pushed one; a repeat of
-- the last position changes nothing of that.
pub push_lem :
    (d p e q : ℕ) (l : List Posting)
    → InOrder 0 l
    → MayPush l d p
    → InOrder 0 (push l d p) × (occurs e q (push l d p) ≡ (occurs e q l || ((d == e) && (p == q))))
push_lem d p e q l o h = (push-InOrder d p l o h, occurs-push e q d p l)
