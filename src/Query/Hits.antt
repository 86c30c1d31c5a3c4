-- ===== src/Query/Hits.antt =====
-- src/query/exec.rs, `union`, `intersect` and `difference`: lists of scored documents, in the order
-- of the documents. A loop over `a[i..]` and `b[j..]` is a recursion on these two suffixes. The
-- scores are `f32` in the program: here they are any type with the operation `plus`.
pub mod Lookup
pub mod Merge
pub mod Difference
pub mod Meet
pub mod Intersect
use Prim.Native.Nat.{compare, Ordering}
use ripindex.Common.{
  ℕ, ◌+◌, Bool, true, false, Option, none, some, List, [], ◌∷◌, ◌++◌, length, map, ltb, leb, ◌==◌,
  if◌then◌else◌,
}

pub record Hit (S : Type 0) : Type 0 where
  pub doc : ℕ
  pub score : S

module _ {S : Type 0} where
  abbrev pub is_empty : List (Hit S) → Bool
  is_empty [] = true
  is_empty (h ∷ hs) = false

  -- `hits[j..]` after `j += hits[j..].partition_point(|o| o.doc < doc)`.
  unfoldable pub skip_below : ℕ → List (Hit S) → List (Hit S)
  skip_below doc [] = []
  skip_below doc (o ∷ os) = if ltb o.doc doc then skip_below doc os else o ∷ os

  -- `retain` in `difference`: the hits to look at, and `excluded[j..]`.
  unfoldable pub retain_outside : List (Hit S) → List (Hit S) → List (Hit S)
  unfolding skip_below
  retain_outside [] excluded = []
  retain_outside (h ∷ hs) excluded =
      let later = retain_outside hs (skip_below h.doc excluded) in
      elim (skip_below h.doc excluded) [
        | [] ↦ h ∷ later
        | e ∷ es ↦ if e.doc == h.doc then later else h ∷ later
      ]

  unfoldable pub difference : List (Hit S) → List (Hit S) → List (Hit S)
  unfolding retain_outside
  difference base excluded = if is_empty excluded then base else retain_outside base excluded

  -- `sort_by_key(|l| l.len())`, which is stable.
  unfoldable pub insert_by_len : List (Hit S) → List (List (Hit S)) → List (List (Hit S))
  insert_by_len l [] = l ∷ []
  insert_by_len l (m ∷ ms) =
      if leb (length l) (length m) then l ∷ m ∷ ms else m ∷ insert_by_len l ms

  unfoldable pub sort_by_len : List (List (Hit S)) → List (List (Hit S))
  unfolding insert_by_len
  sort_by_len [] = []
  sort_by_len (l ∷ ls) = insert_by_len l (sort_by_len ls)

  unfoldable pub any_empty : List (List (Hit S)) → Bool
  any_empty [] = false
  any_empty (l ∷ ls) = if is_empty l then true else any_empty ls

  module _ (plus : S → S → S) where
    -- The `while` loop of `merge_sum`, and what follows it.
    unfoldable pub merge_loop : List (Hit S) → List (Hit S) → List (Hit S)
    merge_loop [] b = b
    merge_loop (x ∷ xs) [] = x ∷ xs
    merge_loop (x ∷ xs) (y ∷ ys) = elim (compare x.doc y.doc) [
      | Ordering.lt ↦ x ∷ merge_loop xs (y ∷ ys)
      | Ordering.gt ↦ y ∷ merge_loop (x ∷ xs) ys
      | Ordering.eq ↦ record { doc = x.doc; score = plus x.score y.score } ∷ merge_loop xs ys
    ]

    unfoldable pub merge_sum : List (Hit S) → List (Hit S) → List (Hit S)
    unfolding merge_loop
    merge_sum a b = if is_empty a then b else if is_empty b then a else merge_loop a b

    unfoldable pub union_from : List (Hit S) → List (List (Hit S)) → List (Hit S)
    unfolding merge_sum
    union_from acc [] = acc
    union_from acc (l ∷ ls) = union_from (merge_sum acc l) ls

    unfoldable pub union : List (List (Hit S)) → List (Hit S)
    unfolding union_from
    union lists = union_from [] lists

    -- `retain_mut` in `intersect`: the hits to look at, and `other[j..]`.
    unfoldable pub retain_common : List (Hit S) → List (Hit S) → List (Hit S)
    unfolding skip_below
    retain_common [] other = []
    retain_common (h ∷ hs) other =
        let later = retain_common hs (skip_below h.doc other) in
        elim (skip_below h.doc other) [
          | [] ↦ later
          | o ∷ os ↦
              if o.doc == h.doc then record h { score = plus h.score o.score } ∷ later else later
        ]

    -- The loop over the other lists, which ends when nothing is left.
    unfoldable pub intersect_loop : List (Hit S) → List (List (Hit S)) → List (Hit S)
    unfolding retain_common
    intersect_loop result [] = result
    intersect_loop result (other ∷ others) =
        let rest = intersect_loop (retain_common result other) others in
        if is_empty (retain_common result other) then retain_common result other else rest

    unfoldable pub start_loop : List (List (Hit S)) → List (Hit S)
    unfolding intersect_loop
    start_loop [] = []
    start_loop (shortest ∷ others) = intersect_loop shortest others

    unfoldable pub intersect : List (List (Hit S)) → List (Hit S)
    unfolding any_empty sort_by_len start_loop
    intersect lists = if any_empty lists then [] else start_loop (sort_by_len lists)
