-- ===== src/Query/Hits/Meet.antt =====
-- src/query/exec.rs, the loop of `intersect`: the documents that all lists have, with their scores
-- summed.
use ripindex.Common.{
  ℕ, ◌+◌, ◌≤◌, ◌≡◌, refl, sym, ◌∙◌, Option, none, some, List, [], ◌∷◌, ◌==◌, if◌then◌else◌, arith,
  All,
}
use ripindex.Query.Hits.{Hit, is_empty, skip_below, retain_common, intersect_loop}
use ripindex.Query.Hits.Lookup.{
  found, Rising, lookup, Rising-from, lookup-below, Rising-skip_below, lookup-skip_below,
}

module _ {S : Type 0} (plus : S → S → S) where
  abbrev pub both : Option S → Option S → Option S
  both none y = none
  both (some x) none = none
  both (some x) (some y) = some (plus x y)

  common_round :
      (d : ℕ) (h : Hit S) (hs later os : List (Hit S))
      → Rising (h.doc + 1) hs
      → Rising h.doc os
      → lookup d later ≡ both (lookup d hs) (lookup d os)
      → lookup d (elim os [
        | [] ↦ later
        | o ∷ os' ↦
            if o.doc == h.doc then record h { score = plus h.score o.score } ∷ later else later
      ])
        ≡ both (lookup d (h ∷ hs)) (lookup d os)
  common_round d h hs later [] rh ro ih = ground (arith, lookup-below (h.doc + 1) d hs)
  common_round d h hs later (o ∷ os') rh ro ih =
      ground (arith, lookup-below (o.doc + 1) d os', lookup-below (h.doc + 1) d hs)

  lookup-retain_common :
      (lo lo' d : ℕ) (hits other : List (Hit S))
      → lo' ≤ lo
      → Rising lo hits
      → Rising lo' other
      → lookup d (retain_common plus hits other) ≡ both (lookup d hits) (lookup d other)
  unfolding retain_common
  lookup-retain_common lo lo' d [] other le rh ro = refl
  lookup-retain_common lo lo' d (h ∷ hs) other le rh ro =
      let os = skip_below h.doc other in
      let rs = Rising-skip_below lo' h.doc other (omega arith) ro in
      let ih = lookup-retain_common (h.doc + 1) h.doc d hs os (omega arith) rh.1 rs in
      common_round d h hs (retain_common plus hs os) os rh.1 rs ih
      ∙ ground (arith, lookup-skip_below h.doc d other, lookup-below (h.doc + 1) d hs)

  retain_common-Rising :
      (lo : ℕ) (hits other : List (Hit S))
      → Rising lo hits
      → Rising lo (retain_common plus hits other)
  unfolding retain_common
  retain_common-Rising lo [] other r = tt
  retain_common-Rising lo (h ∷ hs) other r =
      let os = skip_below h.doc other in
      round os (retain_common plus hs os) (retain_common-Rising (h.doc + 1) hs os r.1)
    where
      round :
          (os later : List (Hit S))
          → Rising (h.doc + 1) later
          → Rising lo (elim os [
            | [] ↦ later
            | o ∷ os' ↦
                if o.doc == h.doc then record h { score = plus h.score o.score } ∷ later else later
          ])
      round [] later rl = Rising-from lo (h.doc + 1) later (omega (arith, r.0)) rl
      round (o ∷ os') later rl = ground (arith, Rising-from lo (h.doc + 1) later)

  -- The sum of the scores that the lists have for `d`, if all have one.
  abbrev pub both_of : ℕ → Option S → List (List (Hit S)) → Option S
  both_of d acc [] = acc
  both_of d acc (l ∷ ls) = both_of d (both acc (lookup d l)) ls

  both_of-none : (d : ℕ) (ls : List (List (Hit S))) → both_of d none ls ≡ none
  both_of-none d [] = refl
  both_of-none d (l ∷ ls) = both_of-none d ls

  pub intersect_loop_lem :
      (lo d : ℕ) (result : List (Hit S)) (others : List (List (Hit S)))
      → Rising lo result
      → All (Rising lo) others
      → Rising lo (intersect_loop plus result others)
        × (lookup d (intersect_loop plus result others) ≡ both_of d (lookup d result) others)
  unfolding intersect_loop
  intersect_loop_lem lo d result [] r rs = (r, refl)
  intersect_loop_lem lo d result (other ∷ others) r rs =
      let kept = retain_common plus result other in
      let rising = retain_common-Rising lo result other r in
      let seen = lookup-retain_common lo lo d result other (omega arith) r rs.0 in
      let (later, found) = intersect_loop_lem lo d kept others rising rs.1 in
      go kept (intersect_loop plus kept others) rising later found seen
    where
      go :
          (kept later : List (Hit S))
          → Rising lo kept
          → Rising lo later
          → lookup d later ≡ both_of d (lookup d kept) others
          → lookup d kept ≡ both (lookup d result) (lookup d other)
          → Rising lo (if is_empty kept then kept else later)
            × (lookup d (if is_empty kept then kept else later)
                ≡ both_of d (both (lookup d result) (lookup d other)) others)
      go [] later rk rl found seen = (tt, rw (← seen) (sym (both_of-none d others)))
      go (k ∷ ks) later rk rl found seen = (rl, rw (← seen) found)
