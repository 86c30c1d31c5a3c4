-- ===== src/Format/Overlay/Search.antt =====
-- src/format/overlay.rs, `find`: the binary search finds a patch of an accepted overlay.
use Prim.Native.Nat.{compare, Ordering}
use mathlib.Core.Path.{subst}
use ripindex.Common.{
  ℕ, zero, suc, ◌+◌, ◌-◌, ◌/◌, ◌≤◌, ◌<◌, ◌≡◌, refl, sym, ap, ◌∙◌, ◌⊎◌, inl, inr, Bool, true, false,
  not, Option, none, some, arith, leb, lt→ltb,
}
use ripindex.Format.{
  Bytes, FormatError, corrupt, patch_out_of_range, patches_not_sorted, patch_bad_path, ok, err,
  require,
}
use ripindex.Format.Binds.{ok-injective, >>=-eq-ok, >>-eq-ok}
use ripindex.Format.Checksum.{Crc32}
use ripindex.Format.Envelope
use ripindex.Format.Overlay.{
  Patch, OverlayView, patch, path_of, not_above, or_corrupt, check_rounds, parse_body,
  parse_verified, found_at, find_loop, find,
}

le-cases : (a b : ℕ) → a ≤ b → (a ≡ b) ⊎ (a + 1 ≤ b)
le-cases a b h = grind arith

-- From the `i`-th on there are `left` patches with paths, whose ids increase from `lo` on.
abbrev pub Rises : OverlayView → ℕ → ℕ → ℕ → Type 0
Rises v zero i lo = Unit
Rises v (suc left) i lo =
    (p : Patch) × (s : Bytes) × (patch v i ≡ some p)
    × (path_of v p ≡ some s)
    × (lo ≤ p.doc_id)
    × Rises v left (i + 1) (p.doc_id + 1)

some-injective {ℓ} : {A : Type ℓ} {a b : A} → some a ≡ some b → a ≡ b
some-injective e = cc

or_corrupt-some {ℓ} :
    {A : Type ℓ} (o : Option A) (e : FormatError) (a : A) → or_corrupt o (err e) ≡ ok a → o ≡ some a
or_corrupt-some none e a h = cc
or_corrupt-some (some b) e a h = ap some (ok-injective h)

require-true : (b : Bool) (e : FormatError) → require (not b) e ≡ ok tt → b ≡ false
require-true true e h = cc
require-true false e h = refl

check_rounds-Rises :
    (v : OverlayView) (left i : ℕ) (prev : Option ℕ) (lo : ℕ)
    → ((id : ℕ) → not_above prev id ≡ false → lo ≤ id)
    → check_rounds v left i prev ≡ ok tt
    → Rises v left i lo
unfolding check_rounds
check_rounds-Rises v zero i prev lo below h = tt
check_rounds-Rises v (suc left) i prev lo below h =
    let (p, got, h1) = >>=-eq-ok (or_corrupt (patch v i) (err (corrupt patch_out_of_range))) _ h in
    let (sorted, h2) =
      >>-eq-ok (require (not (not_above prev p.doc_id)) (corrupt patches_not_sorted)) _ h1 in
    let (s, text, h3) = >>=-eq-ok (or_corrupt (path_of v p) (err (corrupt patch_bad_path))) _ h2 in
    (
      p,
      s,
      or_corrupt-some (patch v i) _ p got,
      or_corrupt-some (path_of v p) _ s text,
      below p.doc_id (require-true (not_above prev p.doc_id) _ sorted),
      check_rounds-Rises v left (i + 1) (some p.doc_id) (p.doc_id + 1) (above p.doc_id) h3,
    )
  where
    above : (a id : ℕ) → leb id a ≡ false → a + 1 ≤ id
    above a id e = ground arith

-- Every patch in the range is there, with its path.
there :
    (v : OverlayView) (left i lo k : ℕ)
    → Rises v left i lo
    → i ≤ k
    → k < i + left
    → (p : Patch) × (s : Bytes) × (patch v k ≡ some p) × (path_of v p ≡ some s)
there v zero i lo k r a b = absurd (omega arith)
there v (suc left) i lo k r a b = elim (le-cases i k a) [
  | inl same ↦ rw (← same) (r.0, r.1, r.2, r.3)
  | inr past ↦ there v left (i + 1) (r.0.doc_id + 1) k r.5 past (omega arith)
]

low_bound :
    (v : OverlayView) (left i lo k : ℕ) (q : Patch)
    → Rises v left i lo
    → i ≤ k
    → k < i + left
    → patch v k ≡ some q
    → lo ≤ q.doc_id
low_bound v zero i lo k q r a b h = absurd (omega arith)
low_bound v (suc left) i lo k q r a b h = elim (le-cases i k a) [
  | inl same ↦ here same
  | inr past ↦
      omega (arith, r.4, low_bound v left (i + 1) (r.0.doc_id + 1) k q r.5 past (omega arith) h)
]
  where
    here : i ≡ k → lo ≤ q.doc_id
    here same = let e : r.0 ≡ q = some-injective (sym r.2 ∙ rw same h) in rw (← e) r.4

increase :
    (v : OverlayView) (left i lo j k : ℕ) (p q : Patch)
    → Rises v left i lo
    → i ≤ j
    → j < k
    → k < i + left
    → patch v j ≡ some p
    → patch v k ≡ some q
    → p.doc_id < q.doc_id
increase v zero i lo j k p q r a b d hp hq = absurd (omega arith)
increase v (suc left) i lo j k p q r a b d hp hq = elim (le-cases i j a) [
  | inl same ↦ here same
  | inr past ↦ increase v left (i + 1) (r.0.doc_id + 1) j k p q r.5 past b (omega arith) hp hq
]
  where
    here : i ≡ j → p.doc_id < q.doc_id
    here same =
        let e : r.0 ≡ p = some-injective (sym r.2 ∙ rw same hp) in
        rw (← e) (
          omega (
            arith,
            low_bound v left (i + 1) (r.0.doc_id + 1) k q r.5 (omega (arith, same)) (omega arith)
                hq,
          ))

compare-lt : (a b : ℕ) → a < b → compare a b ≡ Ordering.lt
compare-lt a b h = ground arith

compare-gt : (a b : ℕ) → b < a → compare a b ≡ Ordering.gt
compare-gt a b h = ground arith

compare-eq : (a : ℕ) → compare a a ≡ Ordering.eq
compare-eq a = ground arith

trichotomy : (a b : ℕ) → (a < b) ⊎ ((a ≡ b) ⊎ (b < a))
trichotomy a b = grind arith

module _ (v : OverlayView) (r : Rises v v.num_patches 0 0) (k : ℕ) (q : Patch) (s : Bytes)
    (in_view : k < v.num_patches) (at_k : patch v k ≡ some q) (text : path_of v q ≡ some s) where
  find_loop-some :
      (f lo hi : ℕ)
      → lo ≤ k
      → k < hi
      → hi ≤ v.num_patches
      → hi - lo ≤ f
      → find_loop f v q.doc_id lo hi ≡ some (q, s)
  unfolding find_loop
  find_loop-some zero lo hi a b c d = absurd (omega arith)
  find_loop-some (suc f) lo hi a b c d =
      let (p, sp, at_p, text_p) = there v v.num_patches 0 0 mid r (omega arith) (omega arith) in
      rw (lt→ltb lo hi (omega arith), at_p)
        (elim (trichotomy mid k) [
          | inl before ↦
              rw
                (compare-lt p.doc_id q.doc_id (
                  increase v v.num_patches 0 0 mid k p q r (omega arith) before (omega arith) at_p
                    at_k))
                (find_loop-some f (mid + 1) hi (omega arith) b c (omega arith))
          | inr (inl same) ↦ hit p (some-injective (sym at_p ∙ rw same at_k)) _ _
          | inr (inr past) ↦
              rw
                (compare-gt p.doc_id q.doc_id (
                  increase v v.num_patches 0 0 k mid q p r (omega arith) past (omega arith) at_k
                    at_p))
                (find_loop-some f lo mid a past (omega arith) (omega arith))
        ])
    where
      mid : ℕ
      mid = lo + (hi - lo) / 2

      hit :
          (p : Patch)
          → p ≡ q
          → (upper lower : Option (Patch × Bytes))
          → found_at v upper lower p (compare p.doc_id q.doc_id) ≡ some (q, s)
      hit p e upper lower = unfold found_at in rw (e, compare-eq q.doc_id, text) refl

-- Where `patch` gives one, its place is in the view.
patch-lt : (v : OverlayView) (k : ℕ) (q : Patch) → patch v k ≡ some q → k < v.num_patches
unfolding patch
patch-lt v k q h = ground arith

parse_verified-Rises :
    (c : Crc32) (bytes : Bytes) (v : OverlayView)
    → parse_verified c bytes ≡ ok v
    → Rises v v.num_patches 0 0
unfolding parse_verified
parse_verified-Rises c bytes v h =
    let (env, _, h1) = >>=-eq-ok (Envelope.parse_verified c Envelope.overlay bytes) _ h in
    let (w, _, h2) = >>=-eq-ok (parse_body bytes env (Envelope.body_of bytes env)) _ h1 in
    let (checked, last) = >>-eq-ok (check_rounds w w.num_patches 0 none) (ok w) h2 in
    subst (λ view. Rises view view.num_patches 0 0) (ok-injective last)
      (check_rounds-Rises w w.num_patches 0 none 0 (λ id e. omega arith) checked)

-- In an accepted overlay the binary search finds every patch by its document, with its path.
pub find-patch :
    (c : Crc32) (bytes : Bytes) (v : OverlayView) (k : ℕ) (q : Patch)
    → parse_verified c bytes ≡ ok v
    → patch v k ≡ some q
    → (s : Bytes) × (path_of v q ≡ some s) × (find v q.doc_id ≡ some (q, s))
find-patch c bytes v k q accepted at_k =
    let r = parse_verified-Rises c bytes v accepted in
    let inside = patch-lt v k q at_k in
    let (p, s, at_p, text) = there v v.num_patches 0 0 k r (omega arith) (omega (arith, inside)) in
    let same : p ≡ q = some-injective (sym at_p ∙ at_k) in
    let text_q : path_of v q ≡ some s = rw (← same) text in
    (
      s,
      text_q,
      unfold find in
          find_loop-some v r k q s inside at_k text_q v.num_patches 0 v.num_patches (omega arith)
            inside (omega arith) (omega arith),
    )
