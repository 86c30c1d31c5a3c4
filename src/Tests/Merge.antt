-- ===== src/Tests/Merge.antt =====
-- src/store/merge.rs, on five small segments, and on one source with a later deletion.
use ripindex.Common.{
  ℕ, ◌*◌, ◌≤◌, ◌≡◌, refl, arith, Bool, ◌&&◌, some, List, [], ◌∷◌, ltb, All, inl, inr,
}
use mathlib.Core.Path.{subst}
use ripindex.Format.Manifest.{SegmentEntry, total_bytes}
use ripindex.Format.Del.{Bitmap, get}
use ripindex.Format.Del.Set.{IsValid}
use ripindex.Store.Merge.{
  default_policy, add_tier, contains, insert_sorted, sort, chunks, large, groups_of, tier_groups,
  single, rewrites, tiers_from, plan_merges,
}
use ripindex.Store.Merge.Times.{times, times_in}
use ripindex.Store.Merge.Plan.{IsSized, ids_of, plan_merges_lem}
use ripindex.Store.Merge.Carry.{
  PreparedMerge, Current, find_entry, find_current, gen_of, carry_forward,
}
use ripindex.Store.Merge.Carried.{AllLocated, hit, carry_forward_lem}

abbrev segment : ℕ → ℕ → ℕ → SegmentEntry
segment id gen deleted = record {
  segment_id = id;
  del_gen = gen;
  base_doc = id * 10;
  num_docs = 10;
  num_deleted = deleted;
  idx_crc = 0;
  doc_crc = 0;
  del_crc = 0;
  idx_len = 100;
  doc_len = 200;
  del_len = 0;
  num_tokens = 20;
  num_postings = 20;
  num_terms = 5;
}

abbrev many_deleted : SegmentEntry → ℕ → Bool
many_deleted s threshold = ltb 3 s.num_deleted

abbrev lowest_tier : SegmentEntry → ℕ
lowest_tier s = 20

abbrev five : List SegmentEntry
five = segment 5 0 0 ∷ segment 1 0 0 ∷ segment 2 1 6 ∷ segment 3 0 0 ∷ segment 4 0 0 ∷ []

plan_merges-five :
    plan_merges many_deleted lowest_tier default_policy five ≡ (2 ∷ []) ∷ (1 ∷ 3 ∷ 4 ∷ 5 ∷ []) ∷ []
unfolding plan_merges rewrites tiers_from total_bytes add_tier contains tier_groups groups_of sort
    insert_sorted chunks large single
plan_merges-five = refl

plan_merges_lem_example :
    All (IsSized default_policy) (plan_merges many_deleted lowest_tier default_policy five)
    × (times_in 2 (plan_merges many_deleted lowest_tier default_policy five)
        ≤ times 2 (ids_of five))
plan_merges_lem_example = plan_merges_lem many_deleted lowest_tier default_policy five 2

abbrev first_deleted : Bitmap
first_deleted = record { num_docs = 10; bits = 1 ∷ 0 ∷ [] }

first_deleted-IsValid : IsValid first_deleted
first_deleted-IsValid = record {
  num_docs-lt = omega arith;
  holds = (
    omega arith,
    omega arith,
    inl (omega arith),
    (omega arith, omega arith, inr (omega arith), refl),
  );
}

abbrev prepared : PreparedMerge
prepared = record {
  source_ids = 1 ∷ [];
  snapshot_del_gen = (1, 0) ∷ [];
  old_to_new = ((1, 0), 0) ∷ ((1, 1), 1) ∷ [];
  num_docs = 2;
}

abbrev now : List Current
now = record { entry = segment 1 1 1; deletions = some first_deleted } ∷ []

now-AllLocated : AllLocated prepared (segment 1 1 1 ∷ []) now (1 ∷ [])
unfolding find_entry find_current gen_of
now-AllLocated = (
  record {
    entry = segment 1 1 1;
    gen = 0;
    seg = record { entry = segment 1 1 1; deletions = some first_deleted };
    entry_found = refl;
    gen_found = refl;
    seg_found = refl;
    valid = λ b e. let f : first_deleted ≡ b = cc in subst IsValid f first_deleted-IsValid;
  },
  tt,
)

carry_forward_lem_example :
    (carry : Bitmap) × (carry_forward prepared (segment 1 1 1 ∷ []) now ≡ some carry)
    × IsValid carry
    × (carry.num_docs ≡ 2)
    × ((j : ℕ)
        → get carry j
          ≡ some (hit prepared (segment 1 1 1 ∷ []) now (1 ∷ []) now-AllLocated j && ltb j 2))
carry_forward_lem_example =
    carry_forward_lem prepared (segment 1 1 1 ∷ []) now now-AllLocated (omega arith)
