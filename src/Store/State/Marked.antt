-- ===== src/Store/State/Marked.antt =====
-- src/store/state.rs, `reconcile`: the ids of the committed state, the paths that the loop has marked,
-- and the sweep of the others.
use ripindex.Common.{
  arith, ℕ, ◌+◌, ◌≤◌, ◌≡◌, refl, sym, ◌∙◌, Bool, true, false, ◌||◌, some, List, [], ◌∷◌, ◌==◌,
  eq→==, ne→==, if◌then◌else◌, Bool-cases, inl, inr, Has, here, there,
}
use mathlib.Core.Path.{subst}
use ripindex.Query.Syntax.{Text, text_eq, text_eq_sound}
use ripindex.Store.State.{FileState, delete, Progress, get_state, has, push}
use ripindex.Store.State.Reconcile.{sweep}
use ripindex.Store.State.Effect.{touches, touches-append}

abbrev pub ids_at : ℕ → List (Text × FileState) → ℕ
ids_at x [] = 0
ids_at x ((q, s) ∷ rest) = (if s.doc_id == x then 1 else 0) + ids_at x rest

ids_at-Has :
    (x : ℕ) (l : List (Text × FileState)) (q : Text) (s : FileState)
    → Has (q, s) l
    → s.doc_id ≡ x
    → 1 ≤ ids_at x l
ids_at-Has x [] q s h e = elim h [ ]
ids_at-Has x ((q, s) ∷ l) _ _ here e = rw (eq→== s.doc_id x e) (omega arith)
ids_at-Has x ((r, t) ∷ l) q s (there h) e = omega (arith, ids_at-Has x l q s h e)

pub same_path :
    (l : List (Text × FileState))
    → ((x : ℕ) → ids_at x l ≤ 1)
    → (p q : Text) (s t : FileState) → Has (p, s) l
    → Has (q, t) l
    → s.doc_id ≡ t.doc_id
    → p ≡ q
same_path [] u p q s t h k e = elim h [ ]
same_path ((p, s) ∷ l) u _ _ _ _ here here e = refl
same_path ((p, s) ∷ l) u _ q _ t here (there k) e =
    let one : 1 ≤ ids_at s.doc_id l = ids_at-Has s.doc_id l q t k (sym e) in
    let two : (if s.doc_id == s.doc_id then 1 else 0) + ids_at s.doc_id l ≤ 1 = u s.doc_id in
    absurd (ground arith)
same_path ((q, t) ∷ l) u p _ s _ (there h) here e =
    let one : 1 ≤ ids_at t.doc_id l = ids_at-Has t.doc_id l p s h e in
    let two : (if t.doc_id == t.doc_id then 1 else 0) + ids_at t.doc_id l ≤ 1 = u t.doc_id in
    absurd (ground arith)
same_path ((r, v) ∷ l) u p q s t (there h) (there k) e =
    same_path l (λ x. tail x (u x)) p q s t h k e
  where
    tail : (x : ℕ) → (if v.doc_id == x then 1 else 0) + ids_at x l ≤ 1 → ids_at x l ≤ 1
    tail x w = omega arith

pub get_state-Has :
    (l : List (Text × FileState)) (path : Text) (st : FileState)
    → get_state l path ≡ some st
    → Has (path, st) l
unfolding get_state
get_state-Has [] path st e = absurd cc
get_state-Has ((q, s) ∷ l) path st e = elim (Bool-cases (text_eq q path)) [
  | inr o ↦ there (
      get_state-Has l path st (subst (λ b. (if b then some s else get_state l path) ≡ some st) o e))
  | inl o ↦
      let r : q ≡ path = text_eq_sound q path o in
      let f : some s ≡ some st =
        subst (λ b. (if b then some s else get_state l path) ≡ some st) o e in
      let g : s ≡ st = cc in
      subst (λ k. Has (k, st) ((q, s) ∷ l)) r (subst (λ k. Has (q, k) ((q, s) ∷ l)) g here)
]

pub left_false : (a b c : Bool) → ((a || b) || c) ≡ false → (b || c) ≡ false
left_false false b c h = h
left_false true b c h = absurd cc

pub both_false : (a b d c : Bool) → ((a || b) || (d || c)) ≡ false → (b || c) ≡ false
both_false false false false c h = h
both_false false false true c h = absurd cc
both_false false true d c h = absurd cc
both_false true b d c h = absurd cc

pub right_true : (a : Bool) → (a || true) ≡ true
right_true true = refl
right_true false = refl

pub clash : true ≡ false → ⊥
clash h = cc

abbrev pub marked : Progress → Text → Bool
marked p path = has p.seen path || has p.consumed_old path

pub sweep-ids :
    (states : List (Text × FileState)) (p : Progress) (x : ℕ)
    → touches x (sweep states p).plan.changes ≤ touches x p.plan.changes + ids_at x states
unfolding sweep push
sweep-ids [] p x = omega arith
sweep-ids ((q, s) ∷ states) p x = elim (Bool-cases (has p.seen q || has p.consumed_old q)) [
  | inl e ↦ rw e (omega (arith, sweep-ids states p x))
  | inr e ↦ rw e (
      omega (
        arith,
        sweep-ids states (push (delete s.doc_id) p) x,
        touches-append x p.plan.changes (delete s.doc_id ∷ []),
      ))
]

pub sweep-marked :
    (states : List (Text × FileState)) (p : Progress) (path : Text) (x : ℕ)
    → marked p path ≡ true
    → ((q : Text) (s : FileState) → Has (q, s) states → s.doc_id ≡ x → q ≡ path)
    → touches x (sweep states p).plan.changes ≡ touches x p.plan.changes
unfolding sweep push
sweep-marked [] p path x m h = refl
sweep-marked ((q, s) ∷ states) p path x m h =
    elim (Bool-cases (has p.seen q || has p.consumed_old q)) [
      | inl e ↦ rw e (sweep-marked states p path x m (λ r t k. h r t (there k)))
      | inr e ↦ rw e (
          sweep-marked states (push (delete s.doc_id) p) path x m (λ r t k. h r t (there k))
          ∙ touches-append x p.plan.changes (delete s.doc_id ∷ [])
          ∙ rw (other e) (omega arith))
    ]
  where
    other : (has p.seen q || has p.consumed_old q) ≡ false → (s.doc_id == x) ≡ false
    other e =
        ne→== s.doc_id x (λ r. clash (sym m ∙ subst (λ k. marked p k ≡ false) (h q s here r) e))
