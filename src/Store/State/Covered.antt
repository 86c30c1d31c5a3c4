-- ===== src/Store/State/Covered.antt =====
-- src/store/state.rs, `reconcile`: what the plan has for each file of a crawl, where no crawled file
-- stands at the path that a rename left.
use ripindex.Common.{
  arith, ℕ, ◌≤◌, ◌≡◌, ◌⊎◌, refl, sym, ap, ◌∙◌, true, Option, none, some, List, [], ◌∷◌, eq→==, Has,
  here, there,
}
use mathlib.Core.Path.{subst}
use ripindex.Format.{Bytes}
use ripindex.Crawl.{PathBuf, CrawledFile, relative_path}
use ripindex.Query.Syntax.{Text, text_eq_refl}
use ripindex.Store.State.{
  FileState, StateIndex, Change, delete, patch, reindex, Progress, start, get, has, see, examine,
}
use ripindex.Store.State.Reconcile.{
  patched, reindexed, unchanged, known, at_path, one_file, crawl_rounds, reconcile,
}
use ripindex.Store.State.Settled.{Agrees}
use ripindex.Store.State.Answered.{
  Stale, IsPrior, Answered, indexed, renewed, current, unreadable, reconcile-Answered,
}
use ripindex.Store.State.Effect.{touches}
use ripindex.Store.State.Marked.{ids_at, same_path, get_state-Has, sweep-marked}
use ripindex.Store.State.Step.{Distinct, AllGone, Inv, Spared, Step-Spared}
use ripindex.Store.State.Rounds.{unmarked_own, one_file-Step, start-Inv}
use ripindex.Store.State.Once.{reconcile_once}

deletes_once : (x : ℕ) (changes : List Change) → Has (delete x) changes → 1 ≤ touches x changes
deletes_once x [] h = elim h [ ]
deletes_once x (_ ∷ c) here = rw (eq→== x x refl) (omega arith)
deletes_once x (delete id ∷ c) (there h) = omega (arith, deletes_once x c h)
deletes_once x (patch id i m s path ∷ c) (there h) = omega (arith, deletes_once x c h)
deletes_once x (reindex path k i m s o ∷ c) (there h) = deletes_once x c h

patches_once :
    (st : FileState) (cf : CrawledFile) (rel : Text) (changes : List Change)
    → Has (patched st cf rel) changes
    → 1 ≤ touches st.doc_id changes
patches_once st cf rel [] h = elim h [ ]
patches_once st cf rel (_ ∷ c) here = rw (eq→== st.doc_id st.doc_id refl) (omega arith)
patches_once st cf rel (delete id ∷ c) (there h) = omega (arith, patches_once st cf rel c h)
patches_once st cf rel (patch id i m s path ∷ c) (there h) =
    omega (arith, patches_once st cf rel c h)
patches_once st cf rel (reindex path k i m s o ∷ c) (there h) = patches_once st cf rel c h

exactly : {n : ℕ} → 1 ≤ n → n ≤ 1 → n ≡ 1
exactly h k = omega arith

module _ (read : PathBuf → Option Bytes) (hash_bytes : Bytes → ℕ) (prev : StateIndex)
    (root : PathBuf) (crawled : List CrawledFile) where
  -- What the changes do for a file at a path. `touches` counts the deletions and patches of a
  -- document.
  pub data Covered (changes : List Change) (cf : CrawledFile) (rel : Text) : Type 0 where
    reindexed_file :
        (o : Option Bytes)
        → Stale read hash_bytes prev root cf rel
        → (o ≡ none) ⊎ (read cf.entry.path ≡ o)
        → Has (reindexed cf rel o) changes
        → Covered changes cf rel
    patched_file :
        (path : Text) (st : FileState)
        → Stale read hash_bytes prev root cf rel
        → IsPrior read hash_bytes prev root cf rel path
        → get prev path ≡ some st
        → Agrees read hash_bytes st cf
        → Has (patched st cf rel) changes
        → touches st.doc_id changes ≡ 1
        → Covered changes cf rel
    left_file :
        (st : FileState)
        → get prev rel ≡ some st
        → unchanged st cf ≡ true
        → touches st.doc_id changes ≡ 0
        → Covered changes cf rel
    deleted_file :
        (st : FileState)
        → Stale read hash_bytes prev root cf rel
        → get prev rel ≡ some st
        → read cf.entry.path ≡ none
        → Has (delete st.doc_id) changes
        → touches st.doc_id changes ≡ 1
        → Covered changes cf rel

  module _ (unique : (x : ℕ) → ids_at x prev.by_path ≤ 1)
      (gone : AllGone read hash_bytes prev root crawled) where
    module _ (path : Text) (st : FileState) (e : get prev path ≡ some st) where
      crawl_rounds-Spared :
          (files : List CrawledFile) (p : Progress)
          → ((cf : CrawledFile) → Has cf files → Has cf crawled)
          → Distinct read hash_bytes prev root crawled files
          → Inv read hash_bytes prev root crawled unique gone files p
          → Spared read hash_bytes prev root crawled unique gone path st p
          → Spared read hash_bytes prev root crawled unique gone path st
              (crawl_rounds read hash_bytes prev root files p)
      unfolding crawl_rounds
      crawl_rounds-Spared [] p i d v s = s
      crawl_rounds-Spared (cf ∷ files) p i d v s =
          let (step, w) =
            one_file-Step read hash_bytes prev root crawled unique gone cf files p (i cf here) d
              v in
          let q = one_file read hash_bytes prev root cf p in
          crawl_rounds-Spared files q (λ c k. i c (there k)) d.1 w
            (Step-Spared read hash_bytes prev root crawled unique gone path st p q e s step)

    module _ (st : FileState) (cf : CrawledFile)
        (e : get prev (relative_path root cf.entry.path) ≡ some st)
        (u : unchanged st cf ≡ true) where
      abbrev rel : Text
      rel = relative_path root cf.entry.path

      one_file-unchanged :
          (p : Progress) → one_file read hash_bytes prev root cf p ≡ see rel (examine p)
      unfolding one_file at_path known
      one_file-unchanged p =
          ap (λ o. at_path read hash_bytes prev rel cf o (examine p)) e ∙ rw u refl

      own-Spared :
          (files : List CrawledFile) (p : Progress)
          → Has cf crawled
          → Distinct read hash_bytes prev root crawled (cf ∷ files)
          → Inv read hash_bytes prev root crawled unique gone (cf ∷ files) p
          → Spared read hash_bytes prev root crawled unique gone rel st
              (one_file read hash_bytes prev root cf p)
      unfolding see examine has
      own-Spared files p i d v =
          subst (λ q. Spared read hash_bytes prev root crawled unique gone rel st q)
            (sym (one_file-unchanged p))
            (
              rw (text_eq_refl rel) refl,
              (v.counted rel st e).1
                  (unmarked_own read hash_bytes prev root crawled unique gone cf files p p i d v),
            )

      crawled-Spared :
          (files : List CrawledFile) (p : Progress)
          → ((c : CrawledFile) → Has c files → Has c crawled)
          → Distinct read hash_bytes prev root crawled files
          → Inv read hash_bytes prev root crawled unique gone files p
          → Has cf files
          → Spared read hash_bytes prev root crawled unique gone rel st
              (crawl_rounds read hash_bytes prev root files p)
      unfolding crawl_rounds
      crawled-Spared [] p i d v h = elim h [ ]
      crawled-Spared (_ ∷ files) p i d v here =
          let q = one_file read hash_bytes prev root cf p in
          crawl_rounds-Spared rel st e files q (λ c k. i c (there k)) d.1
            (one_file-Step read hash_bytes prev root crawled unique gone cf files p (i cf here) d
              v).1
            (own-Spared files p (i cf here) d v)
      crawled-Spared (c ∷ files) p i d v (there h) =
          crawled-Spared files (one_file read hash_bytes prev root c p) (λ c k. i c (there k)) d.1
            (one_file-Step read hash_bytes prev root crawled unique gone c files p (i c here) d v).1
            h

      unchanged-untouched :
          Distinct read hash_bytes prev root crawled crawled
          → Has cf crawled
          → touches st.doc_id (reconcile read hash_bytes prev root crawled).changes ≡ 0
      unfolding reconcile get
      unchanged-untouched d h =
          let p = crawl_rounds read hash_bytes prev root crawled start in
          let (m, z) =
            crawled-Spared crawled start (λ c k. k) d
              (start-Inv read hash_bytes prev root crawled unique gone) h in
          sweep-marked prev.by_path p rel st.doc_id m (λ q s k r.
            same_path prev.by_path unique q rel s st k (get_state-Has prev.by_path rel st e) r)
          ∙ z

    -- Where the files of the crawl have distinct paths, no id stands twice in the committed state, and
    -- no crawled file stands at the path of a document whose inode a file at an unknown path has: if
    -- the committed document at the path of a crawled file has the file's inode, time and size, the
    -- plan neither deletes nor patches it. If there is no such document, the plan reindexes the path,
    -- with no content or with what is read of the file; or it patches the document at the file's path,
    -- or, with none there, the one at the path of the file's inode, whose time and size are the file's
    -- or whose hash is that of the bytes read, and does nothing else to it; or the file cannot be
    -- read, and the plan deletes the document at its path, and does nothing else to it.
    pub reconcile-Covered :
        Distinct read hash_bytes prev root crawled crawled
        → (cf : CrawledFile) → Has cf crawled
        → Covered
            (reconcile read hash_bytes prev root crawled).changes
            cf
            (relative_path root cf.entry.path)
    reconcile-Covered d cf h = go (reconcile-Answered read hash_bytes prev root crawled cf h)
      where
        changes : List Change
        changes = (reconcile read hash_bytes prev root crawled).changes

        once :
            (path : Text) (st : FileState) → get prev path ≡ some st → touches st.doc_id changes ≤ 1
        once = reconcile_once read hash_bytes prev root crawled unique gone d

        go :
            Answered read hash_bytes prev root changes cf (relative_path root cf.entry.path)
            → Covered changes cf (relative_path root cf.entry.path)
        go (indexed o s r k) = reindexed_file o s r k
        go (renewed path st s i e a k) = patched_file path st s i e a k (
            exactly (patches_once st cf (relative_path root cf.entry.path) changes k)
              (once path st e))
        go (current st e u) = left_file st e u (unchanged-untouched st cf e u d h)
        go (unreadable st s e f k) = deleted_file st s e f k (
            exactly (deletes_once st.doc_id changes k)
              (once (relative_path root cf.entry.path) st e))
