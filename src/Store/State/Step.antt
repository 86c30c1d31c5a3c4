-- ===== src/Store/State/Step.antt =====
-- src/store/state.rs, `reconcile`, where no crawled file stands at the path that a rename left: what
-- the loop has touched and marked.
use ripindex.Common.{
  arith, ℕ, ◌+◌, ◌≤◌, ◌≡◌, ◌≢◌, sym, ◌∙◌, Bool, true, false, Option, none, some, List, [], ◌∷◌,
  ◌==◌, ne→==, if◌then◌else◌, Bool-cases, inl, inr, Has,
}
use mathlib.Core.Path.{subst}
use ripindex.Format.{Bytes}
use ripindex.Crawl.{PathBuf, CrawledFile, relative_path}
use ripindex.Query.Syntax.{Text, text_eq, text_eq_sound, text_eq_refl}
use ripindex.Store.State.{FileState, StateIndex, Progress, get, get_inode, has}
use ripindex.Store.State.Effect.{touches, Touches}
use ripindex.Store.State.Marked.{ids_at, same_path, get_state-Has, clash, marked}

module _ (read : PathBuf → Option Bytes) (hash_bytes : Bytes → ℕ) (prev : StateIndex)
    (root : PathBuf) (crawled : List CrawledFile) where
  abbrev pub Distinct : List CrawledFile → Type 0
  Distinct [] = Unit
  Distinct (cf ∷ files) =
      ((other : CrawledFile)
        → Has other files
        → text_eq (relative_path root cf.entry.path) (relative_path root other.entry.path) ≡ false)
      × Distinct files

  -- No crawled file stands at the path whose inode a file at an unknown path has.
  abbrev pub AllGone : Type 0
  AllGone =
      (cf : CrawledFile) (old : Text)
      → Has cf crawled
      → get prev (relative_path root cf.entry.path) ≡ none
      → get_inode prev.by_inode cf.entry.inode ≡ some old
      → (other : CrawledFile) → Has other crawled
      → relative_path root other.entry.path ≢ old

  module _ (unique : (x : ℕ) → ids_at x prev.by_path ≤ 1) (gone : AllGone) where
    pub other_id :
        (p q : Text) (s t : FileState)
        → get prev p ≡ some s
        → get prev q ≡ some t
        → p ≢ q
        → (s.doc_id == t.doc_id) ≡ false
    unfolding get
    other_id p q s t e f n = ne→== s.doc_id t.doc_id (λ d. n (
        same_path prev.by_path unique p q s t (get_state-Has prev.by_path p s e)
          (get_state-Has prev.by_path q t f) d))

    abbrev pub Counted : Progress → Type 0
    Counted p =
        (path : Text) (st : FileState)
        → get prev path ≡ some st
        → (touches st.doc_id p.plan.changes ≤ 1)
          × (marked p path ≡ false → touches st.doc_id p.plan.changes ≡ 0)

    pub record Inv (files : List CrawledFile) (p : Progress) : Type 0 where
      pub seen_crawled :
          (path : Text)
          → has p.seen path ≡ true
          → (cf : CrawledFile) × Has cf crawled × (relative_path root cf.entry.path ≡ path)
      pub unseen :
          (cf : CrawledFile) → Has cf files → has p.seen (relative_path root cf.entry.path) ≡ false
      pub away_from :
          (path : Text)
          → has p.consumed_old path ≡ true
          → (cf : CrawledFile) → Has cf crawled
          → relative_path root cf.entry.path ≢ path
      pub counted : Counted p

    -- A step touches no document, or one that was not marked and is now.
    pub data Step (p q : Progress) : Type 0 where
      calm :
          ((x : ℕ) → touches x q.plan.changes ≤ touches x p.plan.changes)
          → ((path : Text) → marked q path ≡ false → marked p path ≡ false)
          → Step p q
      hit :
          (key : Text) (prior : FileState)
          → get prev key ≡ some prior
          → Touches prior.doc_id p q
          → marked p key ≡ false
          → marked q key ≡ true
          → ((path : Text) → marked q path ≡ false → marked p path ≡ false)
          → Step p q

    -- A step that touches the document at `key`, which was not marked and is now.
    touched-Counted :
        (p q : Progress) (key : Text) (prior : FileState)
        → Counted p
        → get prev key ≡ some prior
        → Touches prior.doc_id p q
        → marked p key ≡ false
        → marked q key ≡ true
        → ((path : Text) → marked q path ≡ false → marked p path ≡ false)
        → Counted q
    touched-Counted p q key prior c e t unmarked mark mono path st f =
        elim (Bool-cases (text_eq key path)) [
          | inl o ↦
              let r : key ≡ path = text_eq_sound key path o in
              let z : touches st.doc_id p.plan.changes ≡ 0 =
                (c path st f).1 (subst (λ k. marked p k ≡ false) r unmarked) in
              (
                bounded (st.doc_id) z (t st.doc_id),
                λ m. absurd (clash (sym (subst (λ k. marked q k ≡ true) r mark) ∙ m)),
              )
          | inr o ↦
              let n = other_id key path prior st e f (λ r.
                clash (sym (subst (λ k. text_eq k path ≡ true) (sym r) (text_eq_refl path)) ∙ o)) in
              let le : touches st.doc_id q.plan.changes ≤ touches st.doc_id p.plan.changes + 0 =
                subst
                  (λ b.
                    touches st.doc_id q.plan.changes
                    ≤ touches st.doc_id p.plan.changes + (if b then 1 else 0))
                  n (t st.doc_id) in
              (omega (arith, (c path st f).0), λ m. still le ((c path st f).1 (mono path m)))
        ]
      where
        still : {a b : ℕ} → a ≤ b + 0 → b ≡ 0 → a ≡ 0
        still h k = omega arith

        bounded :
            (x : ℕ)
            → touches x p.plan.changes ≡ 0
            → touches x q.plan.changes
              ≤ touches x p.plan.changes + (if prior.doc_id == x then 1 else 0)
            → touches x q.plan.changes ≤ 1
        bounded x z h = ground arith

    pub Step-Counted : (p q : Progress) → Counted p → Step p q → Counted q
    Step-Counted p q c (calm t mono) path st f =
        let k = c path st f in
        let le = t st.doc_id in (omega (arith, k.0, le), λ h. none_more le (k.1 (mono path h)))
      where
        none_more : {a b : ℕ} → a ≤ b → b ≡ 0 → a ≡ 0
        none_more h k = omega arith
    Step-Counted p q c (hit key prior e t unmarked mark mono) path st f =
        touched-Counted p q key prior c e t unmarked mark mono path st f

    -- A document at a marked path that is not touched yet.
    abbrev pub Spared : Text → FileState → Progress → Type 0
    Spared path st p = (marked p path ≡ true) × (touches st.doc_id p.plan.changes ≡ 0)

    still_marked :
        (p q : Progress) (path : Text)
        → (marked q path ≡ false → marked p path ≡ false)
        → marked p path ≡ true
        → marked q path ≡ true
    still_marked p q path mono m = elim (Bool-cases (marked q path)) [
      | inl h ↦ h
      | inr h ↦ absurd (clash (sym m ∙ mono h))
    ]

    pub Step-Spared :
        (path : Text) (st : FileState) (p q : Progress)
        → get prev path ≡ some st
        → Spared path st p
        → Step p q
        → Spared path st q
    Step-Spared path st p q e (m, z) (calm t mono) =
        (still_marked p q path (mono path) m, omega (arith, t st.doc_id, z))
    Step-Spared path st p q e (m, z) (hit key prior f t unmarked mark mono) =
        (still_marked p q path (mono path) m, none_here n (t st.doc_id) z)
      where
        n : (prior.doc_id == st.doc_id) ≡ false
        n =
            other_id key path prior st f e
              (λ r. clash (sym m ∙ subst (λ k. marked p k ≡ false) r unmarked))

        none_here : {a b : ℕ} {t : Bool} → t ≡ false → a ≤ b + (if t then 1 else 0) → b ≡ 0 → a ≡ 0
        none_here {t = true} h le k = absurd (clash h)
        none_here {t = false} h le k = omega arith
