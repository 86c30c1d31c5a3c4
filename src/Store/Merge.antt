-- ===== src/Store/Merge.antt =====
-- src/store/merge.rs, `plan_merges`: which segments to merge. The fraction of deleted documents and
-- the tier of a segment's live bytes are computed on floating-point numbers, and are parameters.
pub mod Times
pub mod Plan
pub mod Carry
pub mod Carried
use ripindex.Common.{
  ℕ, zero, suc, ◌+◌, ◌*◌, ◌%◌, ◌^◌, Bool, true, false, not, ◌&&◌, ◌||◌, List, [], ◌∷◌, ◌++◌, length,
  take, drop, map, ltb, leb, ◌==◌, if◌then◌else◌,
}
use Prim.Native.Nat.{max}
use ripindex.Format.Manifest.{SegmentEntry, total_bytes}

-- The threshold is an `f32`, kept as its bits; 0.3 is 0x3e99999a.
pub record MergePolicy : Type 0 where
  pub tier_size : ℕ
  pub max_merge : ℕ
  pub max_segment_bytes : ℕ
  pub del_fraction_threshold : ℕ

abbrev pub default_policy : MergePolicy
default_policy = record {
  tier_size = 4;
  max_merge = 10;
  max_segment_bytes = 512 * 2 ^ 20;
  del_fraction_threshold = 0x3e99999a;
}

-- The pools of segment ids by tier, as in a `BTreeMap`.
abbrev pub Tiers : Type 0
Tiers = List (ℕ × List ℕ)

unfoldable pub add_tier : ℕ → ℕ → Tiers → Tiers
add_tier tier id [] = (tier, id ∷ []) ∷ []
add_tier tier id ((k, ids) ∷ tiers) =
    let later = add_tier tier id tiers in
    if k == tier
    then (k, ids ++ id ∷ []) ∷ tiers
    else if ltb tier k
    then (tier, id ∷ []) ∷ (k, ids) ∷ tiers
    else (k, ids) ∷ later

unfoldable pub contains : List ℕ → ℕ → Bool
contains [] id = false
contains (x ∷ xs) id = x == id || contains xs id

unfoldable pub insert_sorted : ℕ → List ℕ → List ℕ
insert_sorted id [] = id ∷ []
insert_sorted id (x ∷ xs) = if leb id x then id ∷ x ∷ xs else x ∷ insert_sorted id xs

-- `sort_unstable`
unfoldable pub sort : List ℕ → List ℕ
unfolding insert_sorted
sort [] = []
sort (x ∷ xs) = insert_sorted x (sort xs)

-- `chunks(n)`, in a round for each element.
unfoldable pub chunks : ℕ → ℕ → List ℕ → List (List ℕ)
chunks zero n ids = []
chunks (suc fuel) n [] = []
chunks (suc fuel) n (x ∷ xs) = take n (x ∷ xs) ∷ chunks fuel n (drop n (x ∷ xs))

-- The chunks of two segments or more.
unfoldable pub large : List (List ℕ) → List (List ℕ)
large [] = []
large (chunk ∷ rest) = if leb 2 (length chunk) then chunk ∷ large rest else large rest

unfoldable pub groups_of : MergePolicy → List ℕ → List (List ℕ)
unfolding sort chunks large
groups_of policy ids =
    if ltb (length ids) policy.tier_size
    then []
    else large (chunks (length ids) (max policy.max_merge 2) (sort ids))

unfoldable pub tier_groups : MergePolicy → Tiers → List (List ℕ)
unfolding groups_of
tier_groups policy [] = []
tier_groups policy ((k, ids) ∷ tiers) = groups_of policy ids ++ tier_groups policy tiers

unfoldable pub single : ℕ → List ℕ
single id = id ∷ []

-- `over_threshold s x` is `s.deleted_fraction() > x`; `tier_of` is `tier`,
-- which is at least 20, since the live bytes are taken to be at least 1 MiB.
module _ (over_threshold : SegmentEntry → ℕ → Bool) (tier_of : SegmentEntry → ℕ)
    (policy : MergePolicy) where
  unfoldable pub rewrites : List SegmentEntry → List ℕ
  unfolding total_bytes
  rewrites [] = []
  rewrites (s ∷ segments) =
      if ltb 0 s.num_docs
        && over_threshold s policy.del_fraction_threshold
        && leb (total_bytes s) policy.max_segment_bytes
      then s.segment_id ∷ rewrites segments
      else rewrites segments

  unfoldable pub tiers_from : List ℕ → Tiers → List SegmentEntry → Tiers
  unfolding total_bytes contains add_tier
  tiers_from used tiers [] = tiers
  tiers_from used tiers (s ∷ segments) =
      if contains used s.segment_id || ltb policy.max_segment_bytes (total_bytes s)
      then tiers_from used tiers segments
      else tiers_from used (add_tier (tier_of s) s.segment_id tiers) segments

  unfoldable pub plan_merges : List SegmentEntry → List (List ℕ)
  unfolding single rewrites tiers_from tier_groups
  plan_merges segments =
      let used = rewrites segments in
      map single used ++ tier_groups policy (tiers_from used [] segments)
