-- ===== src/Query/Hits/Merge.antt =====
-- src/query/exec.rs, `merge_sum` and `union`: the union of the documents, with the scores summed.
use ripindex.Common.{
  ℕ, ◌+◌, ◌≡◌, refl, Bool, false, ◌||◌, Option, none, some, List, [], ◌∷◌, arith, All, ap, ◌∙◌,
}
use ripindex.Query.Hits.{Hit, merge_loop, merge_sum, union_from, union}
use ripindex.Query.Hits.Lookup.{is_some, found, Rising, lookup, Rising-from, lookup-below}

module _ {S : Type 0} (plus : S → S → S) where
  -- A document's score in a union: what it has in either list, or the sum.
  abbrev pub either : Option S → Option S → Option S
  either none y = y
  either (some x) none = some x
  either (some x) (some y) = some (plus x y)

  merge_loop-Rising :
      (lo : ℕ) (a b : List (Hit S)) → Rising lo a → Rising lo b → Rising lo (merge_loop plus a b)
  unfolding merge_loop
  merge_loop-Rising lo [] b ra rb = rb
  merge_loop-Rising lo (x ∷ xs) [] ra rb = ra
  merge_loop-Rising lo (x ∷ xs) (y ∷ ys) ra rb = ground (
    arith,
    merge_loop-Rising (x.doc + 1) xs (y ∷ ys),
    merge_loop-Rising (y.doc + 1) (x ∷ xs) ys,
    merge_loop-Rising (x.doc + 1) xs ys,
    Rising-from (x.doc + 1) (y.doc + 1) ys,
  )

  lookup-merge_loop :
      (lo d : ℕ) (a b : List (Hit S))
      → Rising lo a
      → Rising lo b
      → lookup d (merge_loop plus a b) ≡ either (lookup d a) (lookup d b)
  unfolding merge_loop
  lookup-merge_loop lo d [] b ra rb = refl
  lookup-merge_loop lo d (x ∷ xs) [] ra rb = ground arith
  lookup-merge_loop lo d (x ∷ xs) (y ∷ ys) ra rb = ground (
    arith,
    lookup-merge_loop (x.doc + 1) d xs (y ∷ ys),
    lookup-merge_loop (y.doc + 1) d (x ∷ xs) ys,
    lookup-merge_loop (x.doc + 1) d xs ys,
    lookup-below (y.doc + 1) d ys,
    lookup-below (x.doc + 1) d xs,
    Rising-from (x.doc + 1) (y.doc + 1) ys,
  )

  pub merge_sum-eq : (a b : List (Hit S)) → merge_sum plus a b ≡ merge_loop plus a b
  unfolding merge_sum merge_loop
  merge_sum-eq [] b = refl
  merge_sum-eq (x ∷ xs) [] = refl
  merge_sum-eq (x ∷ xs) (y ∷ ys) = refl

  pub merge_sum-Rising :
      (lo : ℕ) (a b : List (Hit S)) → Rising lo a → Rising lo b → Rising lo (merge_sum plus a b)
  merge_sum-Rising lo a b ra rb = rw (merge_sum-eq a b) (merge_loop-Rising lo a b ra rb)

  pub lookup-merge_sum :
      (lo d : ℕ) (a b : List (Hit S))
      → Rising lo a
      → Rising lo b
      → lookup d (merge_sum plus a b) ≡ either (lookup d a) (lookup d b)
  lookup-merge_sum lo d a b ra rb = rw (merge_sum-eq a b) (lookup-merge_loop lo d a b ra rb)

  -- The sum of the scores that the lists have for `d`, from the first list on.
  abbrev pub either_of : ℕ → Option S → List (List (Hit S)) → Option S
  either_of d acc [] = acc
  either_of d acc (l ∷ ls) = either_of d (either acc (lookup d l)) ls

  union_from-Rising :
      (lo : ℕ) (acc : List (Hit S)) (ls : List (List (Hit S)))
      → Rising lo acc
      → All (Rising lo) ls
      → Rising lo (union_from plus acc ls)
  unfolding union_from
  union_from-Rising lo acc [] r rs = r
  union_from-Rising lo acc (l ∷ ls) r rs =
      union_from-Rising lo (merge_sum plus acc l) ls (merge_sum-Rising lo acc l r rs.0) rs.1

  lookup-union_from :
      (lo d : ℕ) (acc : List (Hit S)) (ls : List (List (Hit S)))
      → Rising lo acc
      → All (Rising lo) ls
      → lookup d (union_from plus acc ls) ≡ either_of d (lookup d acc) ls
  unfolding union_from
  lookup-union_from lo d acc [] r rs = refl
  lookup-union_from lo d acc (l ∷ ls) r rs =
      let head = lookup-merge_sum lo d acc l r rs.0 in
      lookup-union_from lo d (merge_sum plus acc l) ls (merge_sum-Rising lo acc l r rs.0) rs.1
      ∙ ap (λ s. either_of d s ls) head

  -- The union of lists whose documents increase has increasing documents, and gives a document the
  -- sum of the scores that the lists give it, from the first to the last, or none if none has it.
  pub union_lem :
      (lo d : ℕ) (lists : List (List (Hit S)))
      → All (Rising lo) lists
      → Rising lo (union plus lists) × (lookup d (union plus lists) ≡ either_of d none lists)
  unfolding union
  union_lem lo d lists rs =
      (union_from-Rising lo [] lists tt rs, lookup-union_from lo d [] lists tt rs)

  abbrev pub any_found : ℕ → List (List (Hit S)) → Bool
  any_found d [] = false
  any_found d (l ∷ ls) = found d l || any_found d ls

  is_some-either_of :
      (d : ℕ) (acc : Option S) (ls : List (List (Hit S)))
      → is_some (either_of d acc ls) ≡ (is_some acc || any_found d ls)
  is_some-either_of d none [] = refl
  is_some-either_of d (some x) [] = refl
  is_some-either_of d acc (l ∷ ls) =
      is_some-either_of d (either acc (lookup d l)) ls ∙ step acc (lookup d l)
    where
      step :
          (x y : Option S)
          → (is_some (either x y) || any_found d ls) ≡ (is_some x || (is_some y || any_found d ls))
      step none y = refl
      step (some x) none = refl
      step (some x) (some y) = refl

  -- A document is in the union exactly if it is in one of the lists.
  pub found-union :
      (lo d : ℕ) (lists : List (List (Hit S)))
      → All (Rising lo) lists
      → found d (union plus lists) ≡ any_found d lists
  found-union lo d lists rs =
      ap is_some (union_lem lo d lists rs).1 ∙ is_some-either_of d none lists
