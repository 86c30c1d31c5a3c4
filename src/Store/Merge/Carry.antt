-- ===== src/Store/Merge/Carry.antt =====
-- src/store/merge.rs, `finish_one`: the deletions of the sources since the snapshot, carried into the
-- merged segment. A failed `unwrap` and a missing key panic: `none`.
use ripindex.Common.{ℕ, Bool, true, false, Option, none, some, List, [], ◌∷◌, ◌==◌, if◌then◌else◌}
use ripindex.Format.Manifest.{SegmentEntry}
use ripindex.Format.Del.{Bitmap, new, get, set_bit}

-- Of `PreparedMerge` what the carry reads: `old_to_new` and `snapshot_del_gen` as lists of pairs.
pub record PreparedMerge : Type 0 where
  pub source_ids : List ℕ
  pub snapshot_del_gen : List (ℕ × ℕ)
  pub old_to_new : List ((ℕ × ℕ) × ℕ)
  pub num_docs : ℕ

-- Of a `Segment` of the current index, its entry and `deletions()`.
pub record Current : Type 0 where
  pub entry : SegmentEntry
  pub deletions : Option Bitmap

unfoldable pub find_entry : ℕ → List SegmentEntry → Option SegmentEntry
find_entry id [] = none
find_entry id (s ∷ segments) = if s.segment_id == id then some s else find_entry id segments

unfoldable pub find_current : ℕ → List Current → Option Current
find_current id [] = none
find_current id (s ∷ segments) =
    if s.entry.segment_id == id then some s else find_current id segments

unfoldable pub gen_of : ℕ → List (ℕ × ℕ) → Option ℕ
gen_of id [] = none
gen_of id ((k, g) ∷ rest) = if k == id then some g else gen_of id rest

-- `carry.set(new_local)`, and what follows.
unfoldable pub was_set : (Bitmap → Option Bitmap) → Option (Bitmap × Bool) → Option Bitmap
was_set again none = none
was_set again (some (carry, newly)) = again carry

unfoldable pub if_deleted : (Bitmap → Option Bitmap) → ℕ → Bitmap → Option Bool → Option Bitmap
unfolding was_set
if_deleted again new_local carry none = none
if_deleted again new_local carry (some false) = again carry
if_deleted again new_local carry (some true) = was_set again (set_bit carry new_local)

unfoldable pub carry_docs : ℕ → Bitmap → List ((ℕ × ℕ) × ℕ) → Bitmap → Option Bitmap
unfolding if_deleted
carry_docs src_id bitmap [] carry = some carry
carry_docs src_id bitmap (((seg_id, old_local), new_local) ∷ docs) carry =
    if seg_id == src_id
    then if_deleted (carry_docs src_id bitmap docs) new_local carry (get bitmap old_local)
    else carry_docs src_id bitmap docs carry

unfoldable pub carry_seg : PreparedMerge → ℕ → Bitmap → Option Current → Option Bitmap
unfolding carry_docs
carry_seg p src_id carry none = none
carry_seg p src_id carry (some seg) = elim seg.deletions [
  | none ↦ some carry
  | some bitmap ↦ carry_docs src_id bitmap p.old_to_new carry
]

unfoldable pub carry_source :
    PreparedMerge → List Current → ℕ → Bitmap → Option SegmentEntry → Option ℕ → Option Bitmap
unfolding carry_seg find_current
carry_source p current src_id carry none g = none
carry_source p current src_id carry (some e) none = none
carry_source p current src_id carry (some e) (some g) =
    if e.del_gen == g then some carry else carry_seg p src_id carry (find_current src_id current)

unfoldable pub next_source : (Bitmap → Option Bitmap) → Option Bitmap → Option Bitmap
next_source again none = none
next_source again (some carry) = again carry

unfoldable pub carry_sources :
    PreparedMerge → List SegmentEntry → List Current → List ℕ → Bitmap → Option Bitmap
unfolding carry_source next_source find_entry gen_of
carry_sources p segments current [] carry = some carry
carry_sources p segments current (src_id ∷ ids) carry =
    next_source (carry_sources p segments current ids) (
      carry_source p current src_id carry (find_entry src_id segments)
        (gen_of src_id p.snapshot_del_gen))

-- What `carry` is after the loop.
unfoldable pub carry_forward : PreparedMerge → List SegmentEntry → List Current → Option Bitmap
unfolding carry_sources
carry_forward p segments current = carry_sources p segments current p.source_ids (new p.num_docs)
