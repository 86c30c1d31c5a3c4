-- ===== src/Store/Merge/Plan.antt =====
-- src/store/merge.rs, `plan_merges`: the groups take each segment at most once, within the limit.
use ripindex.Common.{
  arith, ℕ, zero, suc, ◌+◌, ◌≤◌, ◌≡◌, ◌⊎◌, refl, sym, ap, ◌∙◌, Bool, true, false, ◌&&◌, ◌||◌, List,
  [], ◌∷◌, ◌++◌, length, drop, map, ltb, leb, ◌==◌, if◌then◌else◌, Bool-cases, inl, inr,
  length-take, All, All-append, leb→le, ==_iff,
}
use Prim.Native.Nat.{max}
use ripindex.Format.Manifest.{SegmentEntry, total_bytes}
use ripindex.Store.Merge.{
  MergePolicy, Tiers, add_tier, contains, sort, chunks, large, groups_of, tier_groups, single,
  rewrites, tiers_from, plan_merges,
}
use ripindex.Store.Merge.Times.{
  times, times_in, times_tiers, times_in-append, times_in-single, times_in-tier_groups,
  times_tiers-add_tier,
}

abbrev pub ids_of : List SegmentEntry → List ℕ
ids_of [] = []
ids_of (s ∷ segments) = s.segment_id ∷ ids_of segments

clash : true ≡ false → ⊥
clash q = cc

contains-times : (l : List ℕ) (x : ℕ) → contains l x ≡ false → times x l ≡ 0
unfolding contains
contains-times [] x h = refl
contains-times (y ∷ l) x h = elim (Bool-cases (y == x)) [
  | inl e ↦ absurd (clash (sym (ap (λ b. b || contains l x) e) ∙ h))
  | inr e ↦ rw e (omega (arith, contains-times l x (sym (ap (λ b. b || contains l x) e) ∙ h)))
]

-- A group rewrites one segment, or merges two and no more than the policy allows.
abbrev pub IsSized : MergePolicy → List ℕ → Type 0
IsSized policy g = (length g ≡ 1) ⊎ ((2 ≤ length g) × (length g ≤ max policy.max_merge 2))

All-large :
    (policy : MergePolicy) (l : List (List ℕ))
    → All (λ g. length g ≤ max policy.max_merge 2) l
    → All (IsSized policy) (large l)
unfolding large
All-large policy [] h = tt
All-large policy (g ∷ l) h = elim (Bool-cases (leb 2 (length g))) [
  | inl e ↦ rw e (inr (leb→le 2 (length g) e, h.0), All-large policy l h.1)
  | inr e ↦ rw e (All-large policy l h.1)
]

All-chunks : (fuel n : ℕ) (l : List ℕ) → All (λ g. length g ≤ n) (chunks fuel n l)
unfolding chunks
All-chunks zero n l = tt
All-chunks (suc fuel) n [] = tt
All-chunks (suc fuel) n (x ∷ l) =
    (omega (arith, length-take n (x ∷ l)), All-chunks fuel n (drop n (x ∷ l)))

All-groups_of : (policy : MergePolicy) (l : List ℕ) → All (IsSized policy) (groups_of policy l)
unfolding groups_of
All-groups_of policy l = elim (Bool-cases (ltb (length l) policy.tier_size)) [
  | inl e ↦ rw e tt
  | inr e ↦
      let n = max policy.max_merge 2 in
      rw e (All-large policy (chunks (length l) n (sort l)) (All-chunks (length l) n (sort l)))
]

All-tier_groups :
    (policy : MergePolicy) (tiers : Tiers) → All (IsSized policy) (tier_groups policy tiers)
unfolding tier_groups
All-tier_groups policy [] = tt
All-tier_groups policy ((k, ids) ∷ tiers) =
    All-append (IsSized policy) (groups_of policy ids) (tier_groups policy tiers)
      (All-groups_of policy ids) (All-tier_groups policy tiers)

All-single : (policy : MergePolicy) (l : List ℕ) → All (IsSized policy) (map single l)
unfolding single
All-single policy [] = tt
All-single policy (x ∷ l) = (inl refl, All-single policy l)

module _ (over_threshold : SegmentEntry → ℕ → Bool) (tier_of : SegmentEntry → ℕ)
    (policy : MergePolicy) where
  times-rewrites :
      (x : ℕ) (segments : List SegmentEntry)
      → times x (rewrites over_threshold tier_of policy segments) ≤ times x (ids_of segments)
  unfolding rewrites
  times-rewrites x [] = omega arith
  times-rewrites x (s ∷ segments) =
      elim (Bool-cases (
        ltb 0 s.num_docs
        && over_threshold s policy.del_fraction_threshold
        && leb (total_bytes s) policy.max_segment_bytes)) [
          | inl e ↦ rw e (omega (arith, times-rewrites x segments))
          | inr e ↦ rw e (omega (arith, times-rewrites x segments))
        ]

  times-tiers_from :
      (used : List ℕ) (x : ℕ) (tiers : Tiers) (segments : List SegmentEntry)
      → times_tiers x (tiers_from over_threshold tier_of policy used tiers segments)
        ≤ times_tiers x tiers + (if contains used x then 0 else times x (ids_of segments))
  unfolding tiers_from
  times-tiers_from used x tiers [] = omega arith
  times-tiers_from used x tiers (s ∷ segments) =
      elim (Bool-cases
        (contains used s.segment_id || ltb policy.max_segment_bytes (total_bytes s))) [
          | inl e ↦ rw e (skipped (contains used x) (times-tiers_from used x tiers segments))
          | inr e ↦
              let more = add_tier (tier_of s) s.segment_id tiers in
              rw e (
                taken (contains used x) refl e (times-tiers_from used x more segments)
                  (times_tiers-add_tier x (tier_of s) s.segment_id tiers))
        ]
    where
      skipped :
          {n : ℕ} (b : Bool)
          → n ≤ times_tiers x tiers + (if b then 0 else times x (ids_of segments))
          → n ≤ times_tiers x tiers + (if b then 0 else times x (ids_of (s ∷ segments)))
      skipped true h = h
      skipped false h = omega arith

      other :
          (b : Bool)
          → contains used x ≡ true
          → (contains used s.segment_id || b) ≡ false
          → (s.segment_id == x) ≡ false
      other b h k = elim (Bool-cases (s.segment_id == x)) [
        | inr e ↦ e
        | inl e ↦
            let same : s.segment_id ≡ x = (==_iff s.segment_id x).0 e in
            absurd (clash (sym (ap (λ c. c || b) (ap (contains used) same ∙ h)) ∙ k))
      ]

      taken :
          {n m : ℕ} (b : Bool)
          → contains used x ≡ b
          → (contains used s.segment_id || ltb policy.max_segment_bytes (total_bytes s)) ≡ false
          → n ≤ m + (if b then 0 else times x (ids_of segments))
          → m ≡ (if s.segment_id == x then 1 else 0) + times_tiers x tiers
          → n ≤ times_tiers x tiers + (if b then 0 else times x (ids_of (s ∷ segments)))
      taken {n} {m} true h e k j =
          let o = other (ltb policy.max_segment_bytes (total_bytes s)) h e in
          let j2 : m ≡ 0 + times_tiers x tiers =
            j ∙ ap (λ c. (if c then 1 else 0) + times_tiers x tiers) o in
          omega arith
      taken false h e k j = omega arith

  -- Every group is one segment, or two and at most as many as the policy allows (never below two);
  -- and an id stands in all the groups together at most as often as among the segments, so that no
  -- segment is merged twice.
  pub plan_merges_lem :
      (segments : List SegmentEntry) (x : ℕ)
      → All (IsSized policy) (plan_merges over_threshold tier_of policy segments)
        × (times_in x (plan_merges over_threshold tier_of policy segments)
            ≤ times x (ids_of segments))
  unfolding plan_merges
  plan_merges_lem segments x = (
    All-append (IsSized policy) (map single used) (tier_groups policy tiers)
        (All-single policy used) (All-tier_groups policy tiers),
    total (contains used x) refl (times-tiers_from used x [] segments),
  )
    where
      used : List ℕ
      used = rewrites over_threshold tier_of policy segments

      tiers : Tiers
      tiers = tiers_from over_threshold tier_of policy used [] segments

      subst_le :
          {b : Bool}
          → contains used x ≡ b
          → times_tiers x tiers ≤ 0 + (if contains used x then 0 else times x (ids_of segments))
          → times_tiers x tiers ≤ 0 + (if b then 0 else times x (ids_of segments))
      subst_le e k = rw (← e) k

      total :
          (b : Bool)
          → contains used x ≡ b
          → times_tiers x tiers ≤ 0 + (if contains used x then 0 else times x (ids_of segments))
          → times_in x (map single used ++ tier_groups policy tiers) ≤ times x (ids_of segments)
      total true h k =
          let k2 : times_tiers x tiers ≤ 0 + 0 = subst_le h k in
          omega (
            arith,
            times_in-append x (map single used) (tier_groups policy tiers),
            times_in-single x used,
            times_in-tier_groups x policy tiers,
            times-rewrites x segments,
          )
      total false h k =
          let k2 : times_tiers x tiers ≤ 0 + times x (ids_of segments) = subst_le h k in
          omega (
            arith,
            times_in-append x (map single used) (tier_groups policy tiers),
            times_in-single x used,
            times_in-tier_groups x policy tiers,
            contains-times used x h,
          )
