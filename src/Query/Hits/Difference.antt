-- ===== src/Query/Hits/Difference.antt =====
-- src/query/exec.rs, `difference`: the documents of the first list that the second has not.
use ripindex.Common.{
  ℕ, ◌+◌, ◌≤◌, ◌≡◌, refl, ◌∙◌, Option, none, some, List, [], ◌∷◌, ◌==◌, if◌then◌else◌, arith,
}
use ripindex.Query.Hits.{Hit, skip_below, retain_outside, difference}
use ripindex.Query.Hits.Lookup.{
  Rising, lookup, Rising-from, lookup-below, Rising-skip_below, lookup-skip_below,
}

module _ {S : Type 0} where
  abbrev pub unless : Option S → Option S → Option S
  unless none y = none
  unless (some x) none = some x
  unless (some x) (some y) = none

  -- One round of the loop, whose suffix is now `os`.
  outside_round :
      (d : ℕ) (h : Hit S) (hs later os : List (Hit S))
      → Rising (h.doc + 1) hs
      → Rising h.doc os
      → lookup d later ≡ unless (lookup d hs) (lookup d os)
      → lookup d (elim os [ [] ↦ h ∷ later | e ∷ es ↦ if e.doc == h.doc then later else h ∷ later ])
        ≡ unless (lookup d (h ∷ hs)) (lookup d os)
  outside_round d h hs later [] rh ro ih = ground arith
  outside_round d h hs later (e ∷ es) rh ro ih =
      ground (arith, lookup-below (e.doc + 1) d es, lookup-below (h.doc + 1) d hs)

  lookup-retain_outside :
      (lo lo' d : ℕ) (base excluded : List (Hit S))
      → lo' ≤ lo
      → Rising lo base
      → Rising lo' excluded
      → lookup d (retain_outside base excluded) ≡ unless (lookup d base) (lookup d excluded)
  unfolding retain_outside
  lookup-retain_outside lo lo' d [] excluded le rb re = refl
  lookup-retain_outside lo lo' d (h ∷ hs) excluded le rb re =
      let os = skip_below h.doc excluded in
      let ro = Rising-skip_below lo' h.doc excluded (omega arith) re in
      let ih = lookup-retain_outside (h.doc + 1) h.doc d hs os (omega arith) rb.1 ro in
      outside_round d h hs (retain_outside hs os) os rb.1 ro ih
      ∙ ground (arith, lookup-skip_below h.doc d excluded, lookup-below (h.doc + 1) d hs)

  retain_outside-Rising :
      (lo : ℕ) (base excluded : List (Hit S))
      → Rising lo base
      → Rising lo (retain_outside base excluded)
  unfolding retain_outside
  retain_outside-Rising lo [] excluded r = tt
  retain_outside-Rising lo (h ∷ hs) excluded r =
      let os = skip_below h.doc excluded in
      round os (retain_outside hs os) (retain_outside-Rising (h.doc + 1) hs os r.1)
    where
      round :
          (os later : List (Hit S))
          → Rising (h.doc + 1) later
          → Rising lo
              (elim os [ [] ↦ h ∷ later | e ∷ es ↦ if e.doc == h.doc then later else h ∷ later ])
      round [] later rl = (r.0, rl)
      round (e ∷ es) later rl = ground (arith, Rising-from lo (h.doc + 1) later)

  -- What `difference` leaves of a list whose documents increase is such a list: it gives a document
  -- its score in the first list, if the second list, whose documents increase too, has it not.
  pub difference_lem :
      (lo d : ℕ) (base excluded : List (Hit S))
      → Rising lo base
      → Rising lo excluded
      → Rising lo (difference base excluded)
        × (lookup d (difference base excluded) ≡ unless (lookup d base) (lookup d excluded))
  unfolding difference
  difference_lem lo d base [] rb re = (rb, kept (lookup d base))
    where
      kept : (s : Option S) → s ≡ unless s none
      kept none = refl
      kept (some x) = refl
  difference_lem lo d base (e ∷ es) rb re = (
    retain_outside-Rising lo base (e ∷ es) rb,
    lookup-retain_outside lo lo d base (e ∷ es) (omega arith) rb re,
  )
