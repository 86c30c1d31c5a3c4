-- ===== src/Store/State/Settled.antt =====
-- src/store/state.rs, `reconcile`: the documents at the paths that are accounted for.
use ripindex.Common.{
  ◌≡◌, ◌⊎◌, inl, inr, true, ◌||◌, Option, none, some, List, [], ◌∷◌, ◌++◌, ◌==◌, Bool-cases, Has,
  Has-append, ℕ,
}
use mathlib.Core.Path.{subst}
use ripindex.Format.{Bytes}
use ripindex.Crawl.{PathBuf, CrawledFile, relative_path}
use ripindex.Query.Syntax.{Text, text_eq, text_eq_sound}
use ripindex.Store.State.{
  FileState, StateIndex, Change, delete, Progress, get, has, see, consume, push,
}
use ripindex.Store.State.Reconcile.{patched, reindexed, same_time_size, unchanged, fresh}

module _ (read : PathBuf → Option Bytes) (hash_bytes : Bytes → ℕ) where
  -- The file has the document's time and size, or its bytes the document's hash.
  abbrev pub Agrees : FileState → CrawledFile → Type 0
  Agrees st cf =
      (same_time_size st cf ≡ true)
      ⊎ ((bytes : Bytes) × (read cf.entry.path ≡ some bytes)
          × ((hash_bytes bytes == st.content_hash) ≡ true))

module _ (read : PathBuf → Option Bytes) (hash_bytes : Bytes → ℕ) (prev : StateIndex)
    (root : PathBuf) (crawled : List CrawledFile) where
  abbrev pub rel_of : CrawledFile → Text
  rel_of cf = relative_path root cf.entry.path

  -- What the changes make of the document at a path.
  pub data Kept (changes : List Change) (path : Text) (st : FileState) : Type 0 where
    deleted : Has (delete st.doc_id) changes → Kept changes path st
    left :
        (cf : CrawledFile)
        → Has cf crawled
        → rel_of cf ≡ path
        → unchanged st cf ≡ true
        → Kept changes path st
    updated :
        (cf : CrawledFile)
        → Has cf crawled
        → Has (patched st cf (rel_of cf)) changes
        → Agrees read hash_bytes st cf
        → Kept changes path st

  pub Kept-append :
      (c d : List Change) (path : Text) (st : FileState) → Kept c path st → Kept (c ++ d) path st
  Kept-append c d path st (deleted h) = deleted (Has-append c d h)
  Kept-append c d path st (left cf i e u) = left cf i e u
  Kept-append c d path st (updated cf i h a) = updated cf i (Has-append c d h) a

  abbrev pub Settled : Progress → Type 0
  Settled p =
      (path : Text) (st : FileState)
      → get prev path ≡ some st
      → (has p.seen path ≡ true) ⊎ (has p.consumed_old path ≡ true)
      → Kept p.plan.changes path st

  -- What a step adds to the paths that are accounted for.
  abbrev pub Holds : Progress → Text → Type 0
  Holds p path = (st : FileState) → get prev path ≡ some st → Kept p.plan.changes path st

  pub push-Settled : (c : Change) (p : Progress) → Settled p → Settled (push c p)
  unfolding push
  push-Settled c p h path st e s = Kept-append p.plan.changes (c ∷ []) path st (h path st e s)

  pub see-Settled : (rel : Text) (p : Progress) → Holds p rel → Settled p → Settled (see rel p)
  unfolding see has
  see-Settled rel p new h path st e (inr s) = h path st e (inr s)
  see-Settled rel p new h path st e (inl s) = elim (Bool-cases (text_eq rel path)) [
    | inl same ↦
        let r : rel ≡ path = text_eq_sound rel path same in subst (λ q. Holds p q) r new st e
    | inr other ↦ h path st e (inl (subst (λ b. (b || has p.seen path) ≡ true) other s))
  ]

  pub consume-Settled :
      (old : Text) (p : Progress) → Holds p old → Settled p → Settled (consume old p)
  unfolding consume has
  consume-Settled old p new h path st e (inl s) = h path st e (inl s)
  consume-Settled old p new h path st e (inr s) = elim (Bool-cases (text_eq old path)) [
    | inl same ↦
        let r : old ≡ path = text_eq_sound old path same in subst (λ q. Holds p q) r new st e
    | inr other ↦ h path st e (inr (subst (λ b. (b || has p.consumed_old path) ≡ true) other s))
  ]

  pub Holds-at :
      (p : Progress) (path : Text) (prior : FileState)
      → get prev path ≡ some prior
      → Kept p.plan.changes path prior
      → Holds p path
  Holds-at p path prior e k st f =
      let same : prior ≡ st = cc in subst (λ s. Kept p.plan.changes path s) same k

  pub fresh-Settled :
      (rel : Text) (cf : CrawledFile) (p : Progress)
      → get prev rel ≡ none
      → Settled p
      → Settled (fresh rel cf p)
  unfolding fresh
  fresh-Settled rel cf p e h =
      see-Settled rel (push (reindexed cf rel none) p) (λ st f. absurd cc)
        (push-Settled (reindexed cf rel none) p h)
