-- ===== src/Format/Idx/Seek.antt =====
-- src/format/idx.rs, `DiskCursor::seek`.
use ripindex.Common.{
  ℕ, zero, suc, ◌+◌, ◌<◌, ◌≡◌, refl, none, some, List, [], ◌∷◌, length, arith, leb, true, false,
  Bool-cases, inl, inr,
}
use ripindex.Format.Idx.Postings.{Posting}
use ripindex.Format.Idx.Layout.{list_bytes, IsPostingList}
use ripindex.Format.Idx.Cursor.{Current, DiskCursor, load_next, new, seek_rounds, seek}
use ripindex.Index.Postings.{skip}
use ripindex.Format.Idx.Yields.{Stands, next-Stands, new-Stands, Yields, Stands-Yields}

seek_stops :
    (rounds : ℕ) (c : DiskCursor) (target : ℕ) (k : Current)
    → c.cur ≡ some k
    → leb target k.doc ≡ true
    → seek_rounds (suc rounds) c target ≡ c
unfolding seek_rounds
seek_stops rounds c target k at far = ground arith

seek_goes :
    (rounds : ℕ) (c : DiskCursor) (target : ℕ) (k : Current)
    → c.cur ≡ some k
    → leb target k.doc ≡ false
    → seek_rounds (suc rounds) c target ≡ seek_rounds rounds (load_next c) target
unfolding seek_rounds
seek_goes rounds c target k at near = ground arith

seek_ends :
    (rounds : ℕ) (c : DiskCursor) (target : ℕ) → c.cur ≡ none → seek_rounds rounds c target ≡ c
unfolding seek_rounds
seek_ends zero c target e = refl
seek_ends (suc rounds) c target e = ground arith

seek_rounds-Stands :
    (rounds : ℕ) (c : DiskCursor) (target : ℕ) (postings : List Posting)
    → length postings < rounds
    → Stands c postings
    → Stands (seek_rounds rounds c target) (skip target postings)
seek_rounds-Stands zero c target postings h s = absurd (omega arith)
seek_rounds-Stands (suc rounds) c target [] h s = rw (seek_ends (suc rounds) c target s.no_doc) s
seek_rounds-Stands (suc rounds) c target ((d, ps) ∷ rest) h s = elim (Bool-cases (leb target d)) [
  | inl far ↦ rw (far, seek_stops rounds c target _ s.2.cur_at far) s
  | inr near ↦
      rw (near, seek_goes rounds c target _ s.2.cur_at near)
        (seek_rounds-Stands rounds (load_next c) target rest (omega arith)
          (next-Stands c d ps rest s))
]

enough_rounds :
    (c : DiskCursor) (postings : List Posting)
    → Stands c postings
    → length postings < c.remaining + 2
enough_rounds c [] s = omega arith
enough_rounds c ((d, ps) ∷ rest) (front, prev, o) = omega (arith, o.remaining_at)

pub seek-Stands :
    (c : DiskCursor) (target : ℕ) (postings : List Posting)
    → Stands c postings
    → Stands (seek c target) (skip target postings)
unfolding seek
seek-Stands c target postings s =
    seek_rounds-Stands (c.remaining + 2) c target postings (enough_rounds c postings s) s

-- On a list that meets the format's conditions: after `seek` a fresh cursor over its bytes yields the postings from the first document at or
-- above the target on, and a second `seek` goes on from there.
pub seek-Yields :
    (postings : List Posting) (target later : ℕ)
    → IsPostingList postings
    → Yields (seek (new (list_bytes postings)) target) (skip target postings)
      × Yields
          (seek (seek (new (list_bytes postings)) target) later)
          (skip later (skip target postings))
seek-Yields postings target later v =
    let first = seek-Stands _ target postings (new-Stands postings v) in
    (
      Stands-Yields _ (skip target postings) first,
      Stands-Yields _ (skip later (skip target postings))
          (seek-Stands _ later (skip target postings) first),
    )
