-- ===== src/Store/Merge/Times.antt =====
-- src/store/merge.rs, `plan_merges`: how often an id stands in the groups.
use ripindex.Common.{
  arith, ℕ, zero, suc, ◌+◌, ◌≤◌, ◌≡◌, refl, ap, List, [], ◌∷◌, ◌++◌, length, take, drop, map, ltb,
  leb, ◌==◌, if◌then◌else◌, Bool-cases, inl, inr, take-append-drop,
}
use Prim.Native.Nat.{max}
use ripindex.Store.Merge.{
  MergePolicy, Tiers, add_tier, insert_sorted, sort, chunks, large, groups_of, tier_groups, single,
}

abbrev pub times : ℕ → List ℕ → ℕ
times x [] = 0
times x (y ∷ ys) = (if y == x then 1 else 0) + times x ys

abbrev pub times_in : ℕ → List (List ℕ) → ℕ
times_in x [] = 0
times_in x (g ∷ gs) = times x g + times_in x gs

abbrev pub times_tiers : ℕ → Tiers → ℕ
times_tiers x [] = 0
times_tiers x ((k, ids) ∷ tiers) = times x ids + times_tiers x tiers

times-append : (x : ℕ) (l m : List ℕ) → times x (l ++ m) ≡ times x l + times x m
times-append x [] m = omega arith
times-append x (y ∷ l) m = omega (arith, times-append x l m)

pub times_in-append :
    (x : ℕ) (l m : List (List ℕ)) → times_in x (l ++ m) ≡ times_in x l + times_in x m
times_in-append x [] m = omega arith
times_in-append x (g ∷ l) m = omega (arith, times_in-append x l m)

pub times_in-single : (x : ℕ) (l : List ℕ) → times_in x (map single l) ≡ times x l
unfolding single
times_in-single x [] = refl
times_in-single x (y ∷ l) = omega (arith, times_in-single x l)

times-insert_sorted :
    (x id : ℕ) (l : List ℕ) → times x (insert_sorted id l) ≡ (if id == x then 1 else 0) + times x l
unfolding insert_sorted
times-insert_sorted x id [] = refl
times-insert_sorted x id (y ∷ l) = elim (Bool-cases (leb id y)) [
  | inl e ↦ rw e refl
  | inr e ↦ rw e (omega (arith, times-insert_sorted x id l))
]

times-sort : (x : ℕ) (l : List ℕ) → times x (sort l) ≡ times x l
unfolding sort
times-sort x [] = refl
times-sort x (y ∷ l) = omega (arith, times-insert_sorted x y (sort l), times-sort x l)

times_in-large : (x : ℕ) (l : List (List ℕ)) → times_in x (large l) ≤ times_in x l
unfolding large
times_in-large x [] = omega arith
times_in-large x (g ∷ l) = elim (Bool-cases (leb 2 (length g))) [
  | inl e ↦ rw e (omega (arith, times_in-large x l))
  | inr e ↦ rw e (omega (arith, times_in-large x l))
]

times_in-chunks : (x fuel n : ℕ) (l : List ℕ) → times_in x (chunks fuel n l) ≤ times x l
unfolding chunks
times_in-chunks x zero n l = omega arith
times_in-chunks x (suc fuel) n [] = omega arith
times_in-chunks x (suc fuel) n (y ∷ l) =
    let c : times x (take n (y ∷ l) ++ drop n (y ∷ l)) ≡ times x (y ∷ l) =
      ap (times x) (take-append-drop n (y ∷ l)) in
    omega (
      arith,
      c,
      times-append x (take n (y ∷ l)) (drop n (y ∷ l)),
      times_in-chunks x fuel n (drop n (y ∷ l)),
    )

times_in-groups_of :
    (x : ℕ) (policy : MergePolicy) (l : List ℕ) → times_in x (groups_of policy l) ≤ times x l
unfolding groups_of
times_in-groups_of x policy l = elim (Bool-cases (ltb (length l) policy.tier_size)) [
  | inl e ↦ rw e (omega arith)
  | inr e ↦
      let cs = chunks (length l) (max policy.max_merge 2) (sort l) in
      rw e (
        omega (
          arith,
          times_in-large x cs,
          times_in-chunks x (length l) (max policy.max_merge 2) (sort l),
          times-sort x l,
        ))
]

pub times_in-tier_groups :
    (x : ℕ) (policy : MergePolicy) (tiers : Tiers)
    → times_in x (tier_groups policy tiers) ≤ times_tiers x tiers
unfolding tier_groups
times_in-tier_groups x policy [] = omega arith
times_in-tier_groups x policy ((k, ids) ∷ tiers) = omega (
  arith,
  times_in-append x (groups_of policy ids) (tier_groups policy tiers),
  times_in-groups_of x policy ids,
  times_in-tier_groups x policy tiers,
)

pub times_tiers-add_tier :
    (x tier id : ℕ) (tiers : Tiers)
    → times_tiers x (add_tier tier id tiers) ≡ (if id == x then 1 else 0) + times_tiers x tiers
unfolding add_tier
times_tiers-add_tier x tier id [] = omega arith
times_tiers-add_tier x tier id ((k, ids) ∷ tiers) = elim (Bool-cases (k == tier)) [
  | inl e ↦ rw e (omega (arith, times-append x ids (id ∷ [])))
  | inr e ↦ rw e (elim (Bool-cases (ltb tier k)) [
    | inl f ↦ rw f (omega arith)
    | inr f ↦ rw f (omega (arith, times_tiers-add_tier x tier id tiers))
  ])
]
