-- ===== src/Store/State/Accounts.antt =====
-- src/store/state.rs, `reconcile`: a step over one file of the crawl accounts for what it consumes.
use ripindex.Common.{
  ◌≡◌, refl, sym, inl, inr, ◌&&◌, Option, none, some, List, [], ◌∷◌, ◌++◌, length, ◌==◌, Bool-cases,
  Has, Has-last, ℕ,
}
use mathlib.Core.Path.{subst}
use ripindex.Format.{Bytes}
use ripindex.Crawl.{PathBuf, CrawledFile}
use ripindex.Index.Table.{was_read}
use ripindex.Query.Syntax.{Text}
use ripindex.Store.State.{
  FileState, StateIndex, delete, Progress, get, get_inode, has, see, consume, push, count_read,
  is_text,
}
use ripindex.Store.State.Reconcile.{
  patched, reindexed, same_time_size, unchanged, by_hash, compared, known, moved_read, moved,
  candidate, unknown, at_path,
}
use ripindex.Store.State.Settled.{
  rel_of, Agrees, Kept, deleted, left, updated, Kept-append, Settled, push-Settled, see-Settled,
  consume-Settled, Holds-at, fresh-Settled,
}

module _ (read : PathBuf → Option Bytes) (hash_bytes : Bytes → ℕ) (prev : StateIndex)
    (root : PathBuf) (crawled : List CrawledFile) where
  module _ (rel : Text) (cf : CrawledFile) (i : Has cf crawled)
      (r : rel_of read hash_bytes prev root crawled cf ≡ rel) where
    Kept-patched :
        (p : Progress) (path : Text) (prior : FileState)
        → Agrees read hash_bytes prior cf
        → Kept read hash_bytes prev root crawled
            (push (patched prior cf rel) p).plan.changes
            path
            prior
    unfolding push
    Kept-patched p path prior a =
        updated cf i
          (subst (λ q. Has (patched prior cf q) (p.plan.changes ++ patched prior cf rel ∷ []))
            (sym r) (Has-last p.plan.changes (patched prior cf rel)))
          a

    Kept-deleted :
        (p : Progress) (path : Text) (prior : FileState)
        → Kept read hash_bytes prev root crawled
            (push (delete prior.doc_id) p).plan.changes
            path
            prior
    unfolding push
    Kept-deleted p path prior = deleted (Has-last p.plan.changes (delete prior.doc_id))

    Kept-replaced :
        (p : Progress) (path : Text) (prior : FileState) (o : Option Bytes)
        → Kept read hash_bytes prev root crawled
            (push (reindexed cf rel o) (push (delete prior.doc_id) p)).plan.changes
            path
            prior
    unfolding push
    Kept-replaced p path prior o =
        Kept-append read hash_bytes prev root crawled (p.plan.changes ++ delete prior.doc_id ∷ [])
          (reindexed cf rel o ∷ []) path prior (Kept-deleted p path prior)

    replaced-Settled :
        (p : Progress) (prior : FileState) (o : Option Bytes)
        → Settled read hash_bytes prev root crawled p
        → Settled read hash_bytes prev root crawled
            (push (reindexed cf rel o) (push (delete prior.doc_id) p))
    replaced-Settled p prior o h =
        push-Settled read hash_bytes prev root crawled (reindexed cf rel o)
          (push (delete prior.doc_id) p)
          (push-Settled read hash_bytes prev root crawled (delete prior.doc_id) p h)

    by_hash-Settled :
        (prior : FileState) (bytes : Bytes) (p : Progress)
        → Settled read hash_bytes prev root crawled p
        → Settled read hash_bytes prev root crawled (by_hash read hash_bytes rel cf prior bytes p)
    unfolding by_hash
    by_hash-Settled prior bytes p h = elim (Bool-cases (hash_bytes bytes == prior.content_hash)) [
      | inl e ↦ rw e (push-Settled read hash_bytes prev root crawled (patched prior cf rel) p h)
      | inr e ↦ rw e (replaced-Settled p prior (some bytes) h)
    ]

    by_hash-Kept :
        (prior : FileState) (bytes : Bytes) (p : Progress) (path : Text)
        → read cf.entry.path ≡ some bytes
        → Kept read hash_bytes prev root crawled
            (by_hash read hash_bytes rel cf prior bytes p).plan.changes
            path
            prior
    unfolding by_hash
    by_hash-Kept prior bytes p path f = elim (Bool-cases (hash_bytes bytes == prior.content_hash)) [
      | inl e ↦ rw e (Kept-patched p path prior (inr (bytes, f, e)))
      | inr e ↦ rw e (Kept-replaced p path prior (some bytes))
    ]

    by_hash-consume :
        (prior : FileState) (bytes : Bytes) (p : Progress) (old : Text)
        → by_hash read hash_bytes rel cf prior bytes (consume old p)
          ≡ consume old (by_hash read hash_bytes rel cf prior bytes p)
    unfolding by_hash push consume
    by_hash-consume prior bytes p old = elim (Bool-cases (hash_bytes bytes == prior.content_hash)) [
      | inl e ↦ rw e refl
      | inr e ↦ rw e refl
    ]

    compared-Settled :
        (prior : FileState) (o : Option Bytes) (p : Progress)
        → Settled read hash_bytes prev root crawled p
        → Settled read hash_bytes prev root crawled (compared read hash_bytes rel cf prior o p)
    unfolding compared count_read
    compared-Settled prior none p h =
        push-Settled read hash_bytes prev root crawled (delete prior.doc_id) p h
    compared-Settled prior (some bytes) p h =
        by_hash-Settled prior bytes (count_read (length bytes) p) h

    compared-Kept :
        (prior : FileState) (o : Option Bytes) (p : Progress) (path : Text)
        → read cf.entry.path ≡ o
        → Kept read hash_bytes prev root crawled
            (compared read hash_bytes rel cf prior o p).plan.changes
            path
            prior
    unfolding compared count_read
    compared-Kept prior none p path f = Kept-deleted p path prior
    compared-Kept prior (some bytes) p path f =
        by_hash-Kept prior bytes (count_read (length bytes) p) path f

    known-Settled :
        (prior : FileState) (p : Progress)
        → get prev rel ≡ some prior
        → Settled read hash_bytes prev root crawled p
        → Settled read hash_bytes prev root crawled (known read hash_bytes rel cf prior p)
    unfolding known
    known-Settled prior p e h = elim (Bool-cases (unchanged prior cf)) [
      | inl u ↦ rw u (
          see-Settled read hash_bytes prev root crawled rel p
            (Holds-at read hash_bytes prev root crawled p rel prior e (left cf i r u)) h)
      | inr u ↦ rw u (elim (Bool-cases (is_text cf.kind && was_read prior.status)) [
        | inl v ↦
            let q = compared read hash_bytes rel cf prior (read cf.entry.path) p in
            rw v (
              see-Settled read hash_bytes prev root crawled rel q
                (Holds-at read hash_bytes prev root crawled q rel prior e
                  (compared-Kept prior (read cf.entry.path) p rel refl))
                (compared-Settled prior (read cf.entry.path) p h))
        | inr v ↦
            let q = push (reindexed cf rel none) (push (delete prior.doc_id) p) in
            rw v (
              see-Settled read hash_bytes prev root crawled rel q
                (Holds-at read hash_bytes prev root crawled q rel prior e
                  (Kept-replaced p rel prior none))
                (replaced-Settled p prior none h))
      ])
    ]

    module _ (absent : get prev rel ≡ none) (old : Text) where
      see_new :
          (p : Progress)
          → Settled read hash_bytes prev root crawled p
          → Settled read hash_bytes prev root crawled (see rel p)
      see_new p h = see-Settled read hash_bytes prev root crawled rel p (λ st f. absurd cc) h

      consumed :
          (p : Progress) (prior : FileState)
          → get prev old ≡ some prior
          → Kept read hash_bytes prev root crawled p.plan.changes old prior
          → Settled read hash_bytes prev root crawled p
          → Settled read hash_bytes prev root crawled (consume old p)
      consumed p prior e k h =
          consume-Settled read hash_bytes prev root crawled old p
            (Holds-at read hash_bytes prev root crawled p old prior e k) h

      moved_read-Settled :
          (prior : FileState) (o : Option Bytes) (p : Progress)
          → read cf.entry.path ≡ o
          → get prev old ≡ some prior
          → Settled read hash_bytes prev root crawled p
          → Settled read hash_bytes prev root crawled
              (moved_read read hash_bytes rel cf old prior o p)
      unfolding moved_read count_read
      moved_read-Settled prior none p f e h =
          fresh-Settled read hash_bytes prev root crawled rel cf p absent h
      moved_read-Settled prior (some bytes) p f e h =
          let q = count_read (length bytes) p in
          rw (by_hash-consume prior bytes q old) (
            see_new (consume old (by_hash read hash_bytes rel cf prior bytes q)) (
              consumed (by_hash read hash_bytes rel cf prior bytes q) prior e
                (by_hash-Kept prior bytes q old f) (by_hash-Settled prior bytes q h)))

      moved-Settled :
          (o : Option FileState) (p : Progress)
          → get prev old ≡ o
          → Settled read hash_bytes prev root crawled p
          → Settled read hash_bytes prev root crawled (moved read hash_bytes rel cf old o p)
      unfolding moved
      moved-Settled none p e h = fresh-Settled read hash_bytes prev root crawled rel cf p absent h
      moved-Settled (some prior) p e h = elim (Bool-cases (same_time_size prior cf)) [
        | inl u ↦
            let q = push (patched prior cf rel) p in
            rw u (
              see_new (consume old q) (
                consumed q prior e (Kept-patched p old prior (inl u))
                  (push-Settled read hash_bytes prev root crawled (patched prior cf rel) p h)))
        | inr u ↦ rw u (elim (Bool-cases (is_text cf.kind && was_read prior.status)) [
          | inl v ↦ rw v (moved_read-Settled prior (read cf.entry.path) p refl e h)
          | inr v ↦
              let q = push (delete prior.doc_id) p in
              rw v (
                fresh-Settled read hash_bytes prev root crawled rel cf (consume old q) absent (
                  consumed q prior e (Kept-deleted p old prior)
                    (push-Settled read hash_bytes prev root crawled (delete prior.doc_id) p h)))
        ])
      ]

    candidate-Settled :
        get prev rel ≡ none
        → (o : Option Text) (p : Progress) → Settled read hash_bytes prev root crawled p
        → Settled read hash_bytes prev root crawled (candidate read hash_bytes prev rel cf o p)
    unfolding candidate
    candidate-Settled a none p h = fresh-Settled read hash_bytes prev root crawled rel cf p a h
    candidate-Settled a (some old) p h = elim (Bool-cases (has p.consumed_old old)) [
      | inl u ↦ rw u (fresh-Settled read hash_bytes prev root crawled rel cf p a h)
      | inr u ↦ rw u (moved-Settled a old (get prev old) p refl h)
    ]

    pub at_path-Settled :
        (o : Option FileState) (p : Progress)
        → get prev rel ≡ o
        → Settled read hash_bytes prev root crawled p
        → Settled read hash_bytes prev root crawled (at_path read hash_bytes prev rel cf o p)
    unfolding at_path unknown
    at_path-Settled (some prior) p e h = known-Settled prior p e h
    at_path-Settled none p e h = elim (Bool-cases (cf.entry.inode == 0)) [
      | inl u ↦ rw u (fresh-Settled read hash_bytes prev root crawled rel cf p e h)
      | inr u ↦ rw u (candidate-Settled e (get_inode prev.by_inode cf.entry.inode) p h)
    ]
