-- ===== src/Query/Hits/Intersect.antt =====
-- src/query/exec.rs, `intersect`: the documents of all lists, sorted by length, with the scores summed.
use ripindex.Common.{
  ℕ, ◌≡◌, refl, sym, ap, ◌∙◌, Bool-cases, inl, inr, Bool, true, false, ◌&&◌, Option, none, some,
  List, [], ◌∷◌, arith, All, leb, length,
}
use ripindex.Query.Hits.{Hit, start_loop, intersect, any_empty, insert_by_len, sort_by_len}
use ripindex.Query.Hits.Lookup.{is_some, found, Rising, lookup}
use ripindex.Query.Hits.Meet.{both, both_of, intersect_loop_lem}

module _ {S : Type 0} (plus : S → S → S) where
  -- The scores of `d` in the lists, summed from the first list on.
  abbrev pub meet_of : ℕ → List (List (Hit S)) → Option S
  meet_of d [] = none
  meet_of d (l ∷ ls) = both_of plus d (lookup d l) ls

  abbrev pub all_found : ℕ → List (List (Hit S)) → Bool
  all_found d [] = true
  all_found d (l ∷ ls) = found d l && all_found d ls

  -- There are lists, and all of them have the document.
  abbrev pub in_all : ℕ → List (List (Hit S)) → Bool
  in_all d [] = false
  in_all d (l ∷ ls) = found d l && all_found d ls

  is_some-both_of :
      (d : ℕ) (acc : Option S) (ls : List (List (Hit S)))
      → is_some (both_of plus d acc ls) ≡ (is_some acc && all_found d ls)
  is_some-both_of d none [] = refl
  is_some-both_of d (some x) [] = refl
  is_some-both_of d acc (l ∷ ls) =
      is_some-both_of d (both plus acc (lookup d l)) ls ∙ step acc (lookup d l)
    where
      step :
          (x y : Option S)
          → (is_some (both plus x y) && all_found d ls)
            ≡ (is_some x && (is_some y && all_found d ls))
      step none y = refl
      step (some x) none = refl
      step (some x) (some y) = refl

  all_found-insert_by_len :
      (d : ℕ) (l : List (Hit S)) (ls : List (List (Hit S)))
      → all_found d (insert_by_len l ls) ≡ (found d l && all_found d ls)
  unfolding insert_by_len
  all_found-insert_by_len d l [] = refl
  all_found-insert_by_len d l (m ∷ ms) = ground (arith, all_found-insert_by_len d l ms)

  all_found-sort_by_len :
      (d : ℕ) (ls : List (List (Hit S))) → all_found d (sort_by_len ls) ≡ all_found d ls
  unfolding sort_by_len
  all_found-sort_by_len d [] = refl
  all_found-sort_by_len d (l ∷ ls) =
      all_found-insert_by_len d l (sort_by_len ls)
      ∙ ap (λ b. found d l && b) (all_found-sort_by_len d ls)

  All-insert_by_len {κ} :
      (P : List (Hit S) → Type κ) (l : List (Hit S)) (ls : List (List (Hit S)))
      → P l
      → All P ls
      → All P (insert_by_len l ls)
  unfolding insert_by_len
  All-insert_by_len P l [] p ps = (p, tt)
  All-insert_by_len P l (m ∷ ms) p ps = elim (Bool-cases (leb (length l) (length m))) [
    | inl le ↦ rw le (p, ps)
    | inr gt ↦ rw gt (ps.0, All-insert_by_len P l ms p ps.1)
  ]

  All-sort_by_len {κ} :
      (P : List (Hit S) → Type κ) (ls : List (List (Hit S))) → All P ls → All P (sort_by_len ls)
  unfolding sort_by_len
  All-sort_by_len P [] ps = tt
  All-sort_by_len P (l ∷ ls) ps =
      All-insert_by_len P l (sort_by_len ls) ps.0 (All-sort_by_len P ls ps.1)

  any_empty-all_found :
      (d : ℕ) (ls : List (List (Hit S))) → any_empty ls ≡ true → all_found d ls ≡ false
  unfolding any_empty
  any_empty-all_found d [] h = cc
  any_empty-all_found d ([] ∷ ls) h = refl
  any_empty-all_found d ((x ∷ xs) ∷ ls) h = ground (arith, any_empty-all_found d ls)

  in_all-eq : (d : ℕ) (ls : List (List (Hit S))) → in_all d ls ≡ (is_some (meet_of d ls))
  in_all-eq d [] = refl
  in_all-eq d (l ∷ ls) = sym (is_some-both_of d (lookup d l) ls)

  start_loop_lem :
      (lo d : ℕ) (ls : List (List (Hit S)))
      → All (Rising lo) ls
      → Rising lo (start_loop plus ls) × (lookup d (start_loop plus ls) ≡ meet_of d ls)
  unfolding start_loop
  start_loop_lem lo d [] rs = (tt, refl)
  start_loop_lem lo d (l ∷ ls) rs = intersect_loop_lem plus lo d l ls rs.0 rs.1

  in_all-insert_by_len :
      (d : ℕ) (l : List (Hit S)) (ls : List (List (Hit S)))
      → in_all d (insert_by_len l ls) ≡ (found d l && all_found d ls)
  unfolding insert_by_len
  in_all-insert_by_len d l [] = refl
  in_all-insert_by_len d l (m ∷ ms) = ground (arith, all_found-insert_by_len d l ms)

  in_all-sort_by_len : (d : ℕ) (ls : List (List (Hit S))) → in_all d (sort_by_len ls) ≡ in_all d ls
  unfolding sort_by_len
  in_all-sort_by_len d [] = refl
  in_all-sort_by_len d (l ∷ ls) =
      in_all-insert_by_len d l (sort_by_len ls)
      ∙ ap (λ b. found d l && b) (all_found-sort_by_len d ls)

  meet_of-any_empty :
      (d : ℕ) (ls : List (List (Hit S))) → any_empty ls ≡ true → meet_of d (sort_by_len ls) ≡ none
  meet_of-any_empty d [] h = unfold sort_by_len in refl
  meet_of-any_empty d (l ∷ ls) h = none_of (meet_of d (sort_by_len (l ∷ ls))) (
      sym (in_all-eq d (sort_by_len (l ∷ ls)))
      ∙ in_all-sort_by_len d (l ∷ ls)
      ∙ any_empty-all_found d (l ∷ ls) h)
    where
      none_of : (x : Option S) → is_some x ≡ false → x ≡ none
      none_of none e = refl
      none_of (some s) e = cc

  -- The intersection of lists whose documents increase has increasing documents. It gives a document
  -- the sum of the scores that the lists give it, in the order of their lengths, if there are lists
  -- and all of them have it, and has no other document.
  pub intersect_lem :
      (lo d : ℕ) (lists : List (List (Hit S)))
      → All (Rising lo) lists
      → Rising lo (intersect plus lists)
        × (lookup d (intersect plus lists) ≡ meet_of d (sort_by_len lists))
        × (found d (intersect plus lists) ≡ in_all d lists)
  unfolding intersect
  intersect_lem lo d lists rs = elim (Bool-cases (any_empty lists)) [
    | inl gone ↦
        let e = meet_of-any_empty d lists gone in
        rw gone (
          tt,
          sym e,
          ap is_some (sym e) ∙ sym (in_all-eq d (sort_by_len lists)) ∙ in_all-sort_by_len d lists,
        )
    | inr all ↦
        let (rise, e) =
          start_loop_lem lo d (sort_by_len lists) (All-sort_by_len (Rising lo) lists rs) in
        rw all (
          rise,
          e,
          ap is_some e ∙ sym (in_all-eq d (sort_by_len lists)) ∙ in_all-sort_by_len d lists,
        )
  ]
