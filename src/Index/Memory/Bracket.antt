-- ===== src/Index/Memory/Bracket.antt =====
-- src/index/memory.rs, the loop and the last search of `seek`: where they stop.
use Prim.Native.Nat.{min}
use ripindex.Common.{
  ℕ, zero, suc, ◌+◌, ◌-◌, ◌*◌, ◌≤◌, ◌<◌, ◌≡◌, refl, sym, ◌∙◌, List, [], ◌∷◌, length, take, drop,
  drop-drop, length-drop, ltb→lt, ltb, ◌⊎◌, inl, inr, Bool-cases, arith,
}
use ripindex.Index.Postings.{Posting, Ascending, skip}
use ripindex.Index.Memory.{doc_at, partition_point, gallop, settle}

doc_at-ge :
    (lo i : ℕ) (postings : List Posting)
    → Ascending lo postings
    → i < length postings
    → lo ≤ doc_at postings i
unfolding doc_at
doc_at-ge lo i [] a h = absurd (omega arith)
doc_at-ge lo zero ((d, ps) ∷ rest) a h = a.0
doc_at-ge lo (suc i) ((d, ps) ∷ rest) a h =
    omega (arith, a.0, doc_at-ge (d + 1) i rest a.1 (omega arith))

doc_at-drop :
    (m k : ℕ) (postings : List Posting) → doc_at (drop m postings) k ≡ doc_at postings (m + k)
unfolding doc_at
doc_at-drop zero k postings = let e : 0 + k ≡ k = omega arith in rw e
doc_at-drop (suc m) k [] = refl
doc_at-drop (suc m) k ((d, ps) ∷ rest) =
    let e : suc m + k ≡ suc (m + k) = omega arith in rw e (doc_at-drop m k rest)

-- The postings up to one below the target are all below it.
skip-drop :
    (lo i j target : ℕ) (postings : List Posting)
    → Ascending lo postings
    → i ≤ j
    → j < length postings
    → doc_at postings j < target
    → skip target (drop i postings) ≡ skip target (drop (suc j) postings)
unfolding doc_at
skip-drop lo i j target [] a le h less = absurd (omega arith)
skip-drop lo zero zero target ((d, ps) ∷ rest) a le h less = ground arith
skip-drop lo zero (suc j) target ((d, ps) ∷ rest) a le h less =
    ground (arith, doc_at-ge (d + 1) j rest, skip-drop (d + 1) 0 j target rest)
skip-drop lo (suc i) zero target ((d, ps) ∷ rest) a le h less = absurd (omega arith)
skip-drop lo (suc i) (suc j) target ((d, ps) ∷ rest) a le h less =
    skip-drop (d + 1) i j target rest a.1 (omega arith) (omega arith) less

-- The partition point of a front part that is long enough is that of the whole.
drop-partition_point :
    (target k : ℕ) (postings : List Posting)
    → (length postings ≤ k) ⊎ (target ≤ doc_at postings k)
    → drop (partition_point target (take k postings)) postings ≡ skip target postings
unfolding partition_point doc_at
drop-partition_point target zero [] h = refl
drop-partition_point target (suc k) [] h = refl
drop-partition_point target zero ((d, ps) ∷ rest) h = ground arith
drop-partition_point target (suc k) ((d, ps) ∷ rest) h =
    ground (arith, drop-partition_point target k rest)

-- What the doubling loop ends with.
pub record Bracket (postings : List Posting) (target start lo hi : ℕ) : Type 0 where
  from : start ≤ lo
  below : lo < hi
  in_range : lo < length postings
  low : doc_at postings lo < target
  high : (length postings ≤ hi) ⊎ (target ≤ doc_at postings hi)

pub gallop-Bracket :
    (f : ℕ) (postings : List Posting) (target start lo step hi : ℕ)
    → length postings < f + hi
    → 0 < step
    → start ≤ lo
    → lo < hi
    → lo < length postings
    → doc_at postings lo < target
    → Bracket postings target start
        (gallop f postings target lo step hi).0
        (gallop f postings target lo step hi).1
unfolding gallop
gallop-Bracket zero postings target start lo step hi hf hs h le inside low = record {
  from = h;
  below = le;
  in_range = inside;
  low = low;
  high = inl (omega arith);
}
gallop-Bracket (suc f) postings target start lo step hi hf hs h le inside low =
    elim (Bool-cases (ltb hi (length postings))) [
      | inr out ↦ rw out (record {
        from = h;
        below = le;
        in_range = inside;
        low = low;
        high = inl (ground (arith, out));
      })
      | inl more ↦ elim (Bool-cases (ltb (doc_at postings hi) target)) [
        | inr far ↦
            rw (more, far)
              (record {
                from = h;
                below = le;
                in_range = inside;
                low = low;
                high = inr (ground (arith, far));
              })
        | inl near ↦
            rw (more, near)
              (gallop-Bracket f postings target start hi (step * 2) (hi + step * 2) (omega arith)
                (omega arith) (omega arith) (omega arith) (ltb→lt _ _ more) (ltb→lt _ _ near))
      ]
    ]

pub settle-skip :
    (postings : List Posting) (target start lo hi : ℕ)
    → Ascending 0 postings
    → Bracket postings target start lo hi
    → drop (settle postings target (lo, hi)) postings ≡ skip target (drop start postings)
unfolding settle
settle-skip postings target start lo hi a b =
    let rest = drop (lo + 1) postings in
    let k = min hi (length postings) - (lo + 1) in
    sym (drop-drop (lo + 1) (partition_point target (take k rest)) postings)
    ∙ drop-partition_point target k rest (long_enough b.high)
    ∙ (rw (suc_of lo) (sym (skip-drop 0 start lo target postings a b.from b.in_range b.low)))
  where
    suc_of : (n : ℕ) → n + 1 ≡ suc n
    suc_of n = omega arith

    long_enough :
        (length postings ≤ hi) ⊎ (target ≤ doc_at postings hi)
        → (length (drop (lo + 1) postings) ≤ min hi (length postings) - (lo + 1))
          ⊎ (target ≤ doc_at (drop (lo + 1) postings) (min hi (length postings) - (lo + 1)))
    long_enough (inl all) = inl (omega (arith, length-drop (lo + 1) postings))
    long_enough (inr far) = elim (Bool-cases (ltb hi (length postings))) [
      | inr out ↦ inl (ground (arith, out, length-drop (lo + 1) postings))
      | inl inside ↦
          let at : lo + 1 + (min hi (length postings) - (lo + 1)) ≡ hi =
            omega (arith, ltb→lt _ _ inside, b.below) in
          inr (rw (doc_at-drop (lo + 1) (min hi (length postings) - (lo + 1)) postings, at) far)
    ]
