-- ===== src/Format/Overlay/Sound.antt =====
-- src/format/overlay.rs, `find`: what the binary search may give.
use Prim.Native.Nat.{compare, Ordering}
use mathlib.Core.Path.{subst}
use ripindex.Common.{
  ℕ, zero, suc, ◌+◌, ◌-◌, ◌/◌, ◌≡◌, refl, inl, inr, Option, none, some, arith, ltb, Bool-cases,
}
use ripindex.Format.{Bytes}
use ripindex.Format.Overlay.{
  Patch, OverlayView, patch, path_of, with_path, found_at, at_mid, find_loop, find,
}

-- What the search may give.
Answers : OverlayView → ℕ → Option (Patch × Bytes) → Type 0
Answers v id none = Unit
Answers v id (some (p, s)) =
    (p.doc_id ≡ id) × (path_of v p ≡ some s) × ((k : ℕ) × (patch v k ≡ some p))

same_id : (a b : ℕ) → compare a b ≡ Ordering.eq → a ≡ b
same_id a b h = ground arith

found_at-Answers :
    (v : OverlayView) (id k : ℕ) (upper lower : Option (Patch × Bytes)) (p : Patch)
    → patch v k ≡ some p
    → Answers v id upper
    → Answers v id lower
    → (o : Ordering) → compare p.doc_id id ≡ o
    → Answers v id (found_at v upper lower p o)
unfolding found_at Answers
found_at-Answers v id k upper lower p h u l Ordering.lt e = u
found_at-Answers v id k upper lower p h u l Ordering.gt e = l
found_at-Answers v id k upper lower p h u l Ordering.eq e = go (path_of v p) refl
  where
    go : (o : Option Bytes) → path_of v p ≡ o → Answers v id (with_path p o)
    go none t = tt
    go (some s) t = (same_id p.doc_id id e, t, (k, h))

at_mid-Answers :
    (v : OverlayView) (id k : ℕ) (upper lower : Option (Patch × Bytes))
    → Answers v id upper
    → Answers v id lower
    → (o : Option Patch) → patch v k ≡ o
    → Answers v id (at_mid v id upper lower o)
unfolding at_mid Answers
at_mid-Answers v id k upper lower u l none h = tt
at_mid-Answers v id k upper lower u l (some p) h =
    found_at-Answers v id k upper lower p h u l (compare p.doc_id id) refl

find_loop-Answers : (v : OverlayView) (id f lo hi : ℕ) → Answers v id (find_loop f v id lo hi)
unfolding find_loop Answers
find_loop-Answers v id zero lo hi = tt
find_loop-Answers v id (suc f) lo hi =
    let mid = lo + (hi - lo) / 2 in
    let upper = find_loop-Answers v id f (mid + 1) hi in
    let lower = find_loop-Answers v id f lo mid in
    let here = at_mid-Answers v id mid _ _ upper lower (patch v mid) refl in
    elim (Bool-cases (ltb lo hi)) [ inl more ↦ rw more here | inr done ↦ rw done tt ]

-- Whatever the search gives, in any view, is a patch of the view for that document, with its path.
pub find_lem :
    (v : OverlayView) (id : ℕ) (p : Patch) (s : Bytes)
    → find v id ≡ some (p, s)
    → (p.doc_id ≡ id) × (path_of v p ≡ some s) × ((k : ℕ) × (patch v k ≡ some p))
unfolding find
find_lem v id p s h =
    unfold Answers in subst (Answers v id) h (find_loop-Answers v id v.num_patches 0 v.num_patches)
