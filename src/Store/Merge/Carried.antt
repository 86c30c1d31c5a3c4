-- ===== src/Store/Merge/Carried.antt =====
-- src/store/merge.rs, `finish_one`: the merged segment's deletions are the sources' later ones.
use ripindex.Common.{
  arith, ℕ, ◌<◌, ◌^◌, ◌≡◌, refl, ◌∙◌, Bool, true, false, ◌&&◌, ◌||◌, Option, none, some, List, [],
  ◌∷◌, not, ◌/◌, leb, get_elem?, set, ◌==◌, if◌then◌else◌, ltb, Bool-cases, inl, inr,
}
use mathlib.Core.Path.{subst}
use mathlib.Core.Option
use ripindex.Format.Manifest.{SegmentEntry}
use ripindex.Format.Del.{Bitmap, new, get, set_bit, has_bit, with_bit}
use ripindex.Format.Del.Set.{IsValid, set_bit_lem, new_lem}
use ripindex.Store.Merge.Carry.{
  PreparedMerge, Current, find_entry, find_current, gen_of, was_set, if_deleted, carry_docs,
  carry_seg, carry_source, next_source, carry_sources, carry_forward,
}

abbrev is_true : Option Bool → Bool
is_true none = false
is_true (some b) = b

-- Some document of a source that the bitmap deletes has the new id.
abbrev pub hit_docs : ℕ → Bitmap → List ((ℕ × ℕ) × ℕ) → ℕ → Bool
hit_docs src_id bitmap [] j = false
hit_docs src_id bitmap (((seg_id, old_local), new_local) ∷ docs) j =
    (if seg_id == src_id then is_true (get bitmap old_local) && new_local == j else false)
    || hit_docs src_id bitmap docs j

abbrev pub hit_seg : PreparedMerge → ℕ → Option Bitmap → ℕ → Bool
hit_seg p src_id none j = false
hit_seg p src_id (some bitmap) j = hit_docs src_id bitmap p.old_to_new j

-- What the loop looks up for a source: its entry, its snapshot and its current bitmap.
pub record IsLocated (p : PreparedMerge) (segments : List SegmentEntry) (current : List Current)
    (src_id : ℕ) : Type 0 where
  pub entry : SegmentEntry
  pub gen : ℕ
  pub seg : Current
  pub entry_found : find_entry src_id segments ≡ some entry
  pub gen_found : gen_of src_id p.snapshot_del_gen ≡ some gen
  pub seg_found : find_current src_id current ≡ some seg
  pub valid : (bitmap : Bitmap) → seg.deletions ≡ some bitmap → IsValid bitmap

module _ (p : PreparedMerge) (segments : List SegmentEntry) (current : List Current) where
  abbrev pub AllLocated : List ℕ → Type 0
  AllLocated [] = Unit
  AllLocated (src_id ∷ ids) = IsLocated p segments current src_id × AllLocated ids

  -- Some source has been deleted from since the snapshot, among it a document with the new id.
  abbrev pub hit : (ids : List ℕ) → AllLocated ids → ℕ → Bool
  hit [] h j = false
  hit (src_id ∷ ids) h j =
      (if h.0.entry.del_gen == h.0.gen then false else hit_seg p src_id h.0.seg.deletions j)
      || hit ids h.1 j

-- From `carry` a loop comes to a well-formed bitmap of its size with the hits set too.
abbrev pub Carries : Bitmap → (ℕ → Bool) → Option Bitmap → Type 0
Carries carry f o =
    (c : Bitmap) × (o ≡ some c)
    × IsValid c
    × (c.num_docs ≡ carry.num_docs)
    × ((j : ℕ) → get c j ≡ (if f j && ltb j carry.num_docs then some true else get carry j))

set_bit-num_docs :
    (b : Bitmap) (i : ℕ) (b' : Bitmap) (newly : Bool)
    → set_bit b i ≡ some (b', newly)
    → b'.num_docs ≡ b.num_docs
unfolding set_bit
set_bit-num_docs b i b' newly e = subst Keeps e kept
  where
    Keeps : Option (Bitmap × Bool) → Type 0
    Keeps none = Unit
    Keeps (some r) = r.0.num_docs ≡ b.num_docs

    mapped :
        (o : Option ℕ)
        → Keeps (
            Option.map
              (λ byte. (
                record b { bits = set b.bits (i / 2 ^ 3) (with_bit byte i) },
                not (has_bit byte i),
              ))
              o)
    mapped none = tt
    mapped (some byte) = refl

    kept : Keeps (set_bit b i)
    kept = elim (Bool-cases (leb b.num_docs i)) [
      | inl h ↦ rw h refl
      | inr h ↦ rw h (mapped (get_elem? b.bits (i / 2 ^ 3)))
    ]

two_sets :
    (n new_local j : ℕ) (h : Bool) (o : Option Bool)
    → (if h && ltb j n
        then some true
        else (if ltb new_local n && (new_local == j) then some true else o))
      ≡ (if ((new_local == j) || h) && ltb j n then some true else o)
two_sets n new_local j h o = ground arith

deleted-Carries :
    (again : Bitmap → Option Bitmap) (f : ℕ → Bool)
    → ((carry : Bitmap) → IsValid carry → Carries carry f (again carry))
    → (new_local : ℕ) (deleted : Bool) (carry : Bitmap) → IsValid carry
    → Carries carry
        (λ j. (deleted && new_local == j) || f j)
        (if_deleted again new_local carry (some deleted))
unfolding if_deleted was_set
deleted-Carries again f ih new_local false carry w = ih carry w
deleted-Carries again f ih new_local true carry w =
    let (b, newly, r) = set_bit_lem carry new_local w in
    let (c, e, v, n, g) = ih b r.valid in
    let size = set_bit-num_docs carry new_local b newly r.returned in
    rw r.returned (
      c,
      e,
      v,
      n ∙ size,
      λ j. g j ∙ rw (size, r.after j) (two_sets carry.num_docs new_local j (f j) (get carry j)),
    )

carry_docs-Carries :
    (src_id : ℕ) (bitmap : Bitmap)
    → IsValid bitmap
    → (docs : List ((ℕ × ℕ) × ℕ)) (carry : Bitmap) → IsValid carry
    → Carries carry (hit_docs src_id bitmap docs) (carry_docs src_id bitmap docs carry)
unfolding carry_docs
carry_docs-Carries src_id bitmap v [] carry w = (carry, refl, w, refl, λ j. refl)
carry_docs-Carries src_id bitmap v (((seg_id, old_local), new_local) ∷ docs) carry w =
    let (b, newly, r) = set_bit_lem bitmap old_local v in
    elim (Bool-cases (seg_id == src_id)) [
      | inl e ↦ rw e (
          rw r.before (
            deleted-Carries (carry_docs src_id bitmap docs) (hit_docs src_id bitmap docs)
              (λ c k. carry_docs-Carries src_id bitmap v docs c k) new_local
              (ltb old_local bitmap.num_docs && not newly) carry w))
      | inr e ↦ rw e (carry_docs-Carries src_id bitmap v docs carry w)
    ]

module _ (p : PreparedMerge) (segments : List SegmentEntry) (current : List Current) where
  seg-Carries :
      (src_id : ℕ) (carry : Bitmap) (o : Option Bitmap)
      → ((bitmap : Bitmap) → o ≡ some bitmap → IsValid bitmap)
      → IsValid carry
      → Carries carry
          (hit_seg p src_id o)
          (elim o [ none ↦ some carry | some bitmap ↦ carry_docs src_id bitmap p.old_to_new carry ])
  seg-Carries src_id carry none v w = (carry, refl, w, refl, λ j. refl)
  seg-Carries src_id carry (some bitmap) v w =
      carry_docs-Carries src_id bitmap (v bitmap refl) p.old_to_new carry w

  source-Carries :
      (src_id : ℕ) (l : IsLocated p segments current src_id) (carry : Bitmap)
      → IsValid carry
      → Carries carry
          (λ j. if l.entry.del_gen == l.gen then false else hit_seg p src_id l.seg.deletions j)
          (carry_source p current src_id carry
            (find_entry src_id segments)
            (gen_of src_id p.snapshot_del_gen))
  unfolding carry_source carry_seg
  source-Carries src_id l carry w =
      rw (l.entry_found, l.gen_found)
        (elim (Bool-cases (l.entry.del_gen == l.gen)) [
          | inl e ↦ rw e (carry, refl, w, refl, λ j. refl)
          | inr e ↦ rw e (rw l.seg_found (seg-Carries src_id carry l.seg.deletions l.valid w))
        ])

  both_hits :
      (n j : ℕ) (f h : Bool) (o : Option Bool)
      → (if h && ltb j n then some true else (if f && ltb j n then some true else o))
        ≡ (if (f || h) && ltb j n then some true else o)
  both_hits n j true h o = elim (Bool-cases (ltb j n)) [
    | inl e ↦ ground arith
    | inr e ↦ ground arith
  ]
  both_hits n j false h o = refl

  sources-Carries :
      (ids : List ℕ) (h : AllLocated p segments current ids) (carry : Bitmap)
      → IsValid carry
      → Carries carry (hit p segments current ids h) (carry_sources p segments current ids carry)
  unfolding carry_sources next_source
  sources-Carries [] h carry w = (carry, refl, w, refl, λ j. refl)
  sources-Carries (src_id ∷ ids) h carry w =
      let (b, e, v, n, g) = source-Carries src_id h.0 carry w in
      let (c, e2, v2, n2, g2) = sources-Carries ids h.1 b v in
      rw e (
        c,
        e2,
        v2,
        n2 ∙ n,
        λ j.
            g2 j
            ∙ rw (n, g j)
                (both_hits carry.num_docs j
                  (if h.0.entry.del_gen == h.0.gen
                    then false
                    else hit_seg p src_id h.0.seg.deletions j)
                  (hit p segments current ids h.1 j) (get carry j)),
      )

  -- Where the manifest, the snapshot and the current index have each source of a prepared merge, the
  -- deletions carried forward are a well-formed bitmap of the merged documents, and it has a
  -- document exactly if the document comes from one that its source deletes now, in a source whose
  -- generation of deletions is not the snapshot's.
  pub carry_forward_lem :
      (h : AllLocated p segments current p.source_ids)
      → p.num_docs < 2 ^ 32
      → (carry : Bitmap) × (carry_forward p segments current ≡ some carry)
        × IsValid carry
        × (carry.num_docs ≡ p.num_docs)
        × ((j : ℕ)
            → get carry j ≡ some (hit p segments current p.source_ids h j && ltb j p.num_docs))
  unfolding carry_forward new
  carry_forward_lem h small =
      let fresh = new_lem p.num_docs small in
      let (c, e, v, n, g) = sources-Carries p.source_ids h (new p.num_docs) fresh.0 in
      (
        c,
        e,
        v,
        n,
        λ j.
            g j
            ∙ rw (fresh.2 j)
                (as_some (hit p segments current p.source_ids h j && ltb j p.num_docs)),
      )
    where
      as_some : (b : Bool) → (if b then some true else some false) ≡ some b
      as_some true = refl
      as_some false = refl
