-- ===== src/Query/Hits/Lookup.antt =====
-- Lists of hits as partial maps from documents to scores.
use ripindex.Common.{
  ℕ, ◌+◌, ◌≤◌, ◌<◌, ◌≡◌, refl, Bool, true, false, Option, none, some, List, [], ◌∷◌, ◌==◌,
  if◌then◌else◌, arith,
}
use ripindex.Query.Hits.{Hit, skip_below}

abbrev pub is_some {ℓ} : {A : Type ℓ} → Option A → Bool
is_some none = false
is_some (some a) = true

module _ {S : Type 0} where
  -- The documents strictly increase, from `lo` on.
  abbrev pub Rising : ℕ → List (Hit S) → Type 0
  Rising lo [] = Unit
  Rising lo (h ∷ hs) = (lo ≤ h.doc) × Rising (h.doc + 1) hs

  abbrev pub lookup : ℕ → List (Hit S) → Option S
  lookup d [] = none
  lookup d (h ∷ hs) = if h.doc == d then some h.score else lookup d hs

  abbrev pub found : ℕ → List (Hit S) → Bool
  found d hs = is_some (lookup d hs)

  pub Rising-from : (lo lo' : ℕ) (hs : List (Hit S)) → lo ≤ lo' → Rising lo' hs → Rising lo hs
  Rising-from lo lo' [] h r = tt
  Rising-from lo lo' (x ∷ xs) h r = (omega arith, r.1)

  pub lookup-below : (lo d : ℕ) (hs : List (Hit S)) → d < lo → Rising lo hs → lookup d hs ≡ none
  lookup-below lo d [] h r = refl
  lookup-below lo d (x ∷ xs) h r = ground (arith, lookup-below (x.doc + 1) d xs)

  pub Rising-skip_below :
      (lo doc : ℕ) (hs : List (Hit S)) → lo ≤ doc → Rising lo hs → Rising doc (skip_below doc hs)
  unfolding skip_below
  Rising-skip_below lo doc [] h r = tt
  Rising-skip_below lo doc (x ∷ xs) h r = ground (arith, Rising-skip_below (x.doc + 1) doc xs)

  pub lookup-skip_below :
      (doc d : ℕ) (hs : List (Hit S)) → doc ≤ d → lookup d (skip_below doc hs) ≡ lookup d hs
  unfolding skip_below
  lookup-skip_below doc d [] h = refl
  lookup-skip_below doc d (x ∷ xs) h = ground (arith, lookup-skip_below doc d xs)
