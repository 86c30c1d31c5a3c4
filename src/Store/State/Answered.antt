-- ===== src/Store/State/Answered.antt =====
-- src/store/state.rs, `reconcile`: what the plan has for each file of the crawl.
use ripindex.Common.{
  ℕ, ◌≡◌, ◌⊎◌, refl, true, false, ◌&&◌, ◌||◌, Option, none, some, List, [], ◌∷◌, ◌++◌, length, ◌==◌,
  Bool-cases, inl, inr, Has, here, there, Has-append, Has-last,
}
use mathlib.Core.Path.{subst}
use ripindex.Format.{Bytes}
use ripindex.Crawl.{PathBuf, CrawledFile, relative_path}
use ripindex.Index.Table.{was_read}
use ripindex.Query.Syntax.{Text}
use ripindex.Store.State.{
  FileState, StateIndex, Change, delete, Progress, start, get, get_inode, has, see, consume, push,
  examine, count_read, is_text,
}
use ripindex.Store.State.Settled.{Agrees}
use ripindex.Store.State.Reconcile.{
  patched, reindexed, same_time_size, unchanged, fresh, by_hash, compared, known, moved_read, moved,
  candidate, unknown, at_path, one_file, crawl_rounds, sweep, reconcile,
}

module _ (read : PathBuf → Option Bytes) (hash_bytes : Bytes → ℕ) (prev : StateIndex)
    (root : PathBuf) where
  -- No committed document at the path has the file's inode, time and size.
  abbrev pub Stale : CrawledFile → Text → Type 0
  Stale cf rel = (st : FileState) → get prev rel ≡ some st → unchanged st cf ≡ false

  -- The committed document at `path` is the one to compare the file with: it is at the file's own
  -- path, or there is none at that path and it is at the path of the file's inode.
  abbrev pub IsPrior : CrawledFile → Text → Text → Type 0
  IsPrior cf rel path =
      (path ≡ rel) ⊎ ((get prev rel ≡ none) × (get_inode prev.by_inode cf.entry.inode ≡ some path))

  -- What the changes do for a file at a path.
  pub data Answered (changes : List Change) (cf : CrawledFile) (rel : Text) : Type 0 where
    indexed :
        (o : Option Bytes)
        → Stale cf rel
        → (o ≡ none) ⊎ (read cf.entry.path ≡ o)
        → Has (reindexed cf rel o) changes
        → Answered changes cf rel
    renewed :
        (path : Text) (st : FileState)
        → Stale cf rel
        → IsPrior cf rel path
        → get prev path ≡ some st
        → Agrees read hash_bytes st cf
        → Has (patched st cf rel) changes
        → Answered changes cf rel
    current :
        (st : FileState) → get prev rel ≡ some st → unchanged st cf ≡ true → Answered changes cf rel
    unreadable :
        (st : FileState)
        → Stale cf rel
        → get prev rel ≡ some st
        → read cf.entry.path ≡ none
        → Has (delete st.doc_id) changes
        → Answered changes cf rel

  Answered-mono :
      {c d : List Change} (cf : CrawledFile) (rel : Text)
      → ((x : Change) → Has x c → Has x d)
      → Answered c cf rel
      → Answered d cf rel
  Answered-mono cf rel g (indexed o s r h) = indexed o s r (g (reindexed cf rel o) h)
  Answered-mono cf rel g (renewed path st s i e a h) =
      renewed path st s i e a (g (patched st cf rel) h)
  Answered-mono cf rel g (current st e u) = current st e u
  Answered-mono cf rel g (unreadable st s e f h) = unreadable st s e f (g (delete st.doc_id) h)

  abbrev Grows : Progress → Progress → Type 0
  Grows p q = (x : Change) → Has x p.plan.changes → Has x q.plan.changes

  push-Grows : (c : Change) (p : Progress) → Grows p (push c p)
  unfolding push
  push-Grows c p x h = Has-append p.plan.changes (c ∷ []) h

  module _ (rel : Text) (cf : CrawledFile) where
    -- A step from `p` to `q` keeps the changes and answers the file.
    abbrev Does : Progress → Progress → Type 0
    Does p q = Grows p q × Answered q.plan.changes cf rel

    absent-Stale : get prev rel ≡ none → Stale cf rel
    absent-Stale e st f = absurd cc

    changed-Stale :
        (prior : FileState) → get prev rel ≡ some prior → unchanged prior cf ≡ false → Stale cf rel
    changed-Stale prior e u st f =
        let same : prior ≡ st = cc in subst (λ s. unchanged s cf ≡ false) same u

    module _ (stale : Stale cf rel) where
      fresh-Does : (p : Progress) → Does p (fresh rel cf p)
      unfolding fresh see push
      fresh-Does p = (
        push-Grows (reindexed cf rel none) p,
        indexed none stale (inl refl) (Has-last p.plan.changes (reindexed cf rel none)),
      )

      replaced-Does :
          (p : Progress) (id : ℕ) (o : Option Bytes)
          → (o ≡ none) ⊎ (read cf.entry.path ≡ o)
          → Does p (push (reindexed cf rel o) (push (delete id) p))
      unfolding push
      replaced-Does p id o r = (
        λ x h.
            push-Grows (reindexed cf rel o) (push (delete id) p) x (push-Grows (delete id) p x h),
        indexed o stale r (Has-last (p.plan.changes ++ delete id ∷ []) (reindexed cf rel o)),
      )

      module _ (path : Text) (prior : FileState) (i : IsPrior cf rel path)
          (e : get prev path ≡ some prior) where
        patched-Does :
            (p : Progress)
            → Agrees read hash_bytes prior cf
            → Does p (push (patched prior cf rel) p)
        unfolding push
        patched-Does p a = (
          push-Grows (patched prior cf rel) p,
          renewed path prior stale i e a (Has-last p.plan.changes (patched prior cf rel)),
        )

        by_hash-Does :
            (bytes : Bytes) (p : Progress)
            → read cf.entry.path ≡ some bytes
            → Does p (by_hash read hash_bytes rel cf prior bytes p)
        unfolding by_hash
        by_hash-Does bytes p f = elim (Bool-cases (hash_bytes bytes == prior.content_hash)) [
          | inl e ↦ rw e (patched-Does p (inr (bytes, f, e)))
          | inr e ↦ rw e (replaced-Does p prior.doc_id (some bytes) (inr f))
        ]

        moved_read-Does :
            (o : Option Bytes) (p : Progress)
            → read cf.entry.path ≡ o
            → Does p (moved_read read hash_bytes rel cf path prior o p)
        unfolding moved_read see consume count_read
        moved_read-Does none p f = fresh-Does p
        moved_read-Does (some bytes) p f =
            by_hash-Does bytes (consume path (count_read (length bytes) p)) f

        moved-Does : (p : Progress) → Does p (moved read hash_bytes rel cf path (some prior) p)
        unfolding moved see consume
        moved-Does p = elim (Bool-cases (same_time_size prior cf)) [
          | inl u ↦ rw u (patched-Does p (inl u))
          | inr u ↦ rw u (elim (Bool-cases (is_text cf.kind && was_read prior.status)) [
            | inl v ↦ rw v (moved_read-Does (read cf.entry.path) p refl)
            | inr v ↦
                let q = consume path (push (delete prior.doc_id) p) in
                let f = fresh-Does q in
                rw v ((λ x h. f.0 x (push-Grows (delete prior.doc_id) p x h)), f.1)
          ])
        ]

      compared-Does :
          (prior : FileState)
          → get prev rel ≡ some prior
          → (o : Option Bytes) (p : Progress) → read cf.entry.path ≡ o
          → Does p (compared read hash_bytes rel cf prior o p)
      unfolding compared count_read push
      compared-Does prior e none p f = (
        push-Grows (delete prior.doc_id) p,
        unreadable prior stale e f (Has-last p.plan.changes (delete prior.doc_id)),
      )
      compared-Does prior e (some bytes) p f =
          by_hash-Does rel prior (inl refl) e bytes (count_read (length bytes) p) f

    known-Does :
        (prior : FileState)
        → get prev rel ≡ some prior
        → (p : Progress) → Does p (known read hash_bytes rel cf prior p)
    unfolding known see
    known-Does prior e p = elim (Bool-cases (unchanged prior cf)) [
      | inl u ↦ rw u ((λ x h. h), current prior e u)
      | inr u ↦
          let stale = changed-Stale prior e u in
          rw u (elim (Bool-cases (is_text cf.kind && was_read prior.status)) [
            | inl v ↦ rw v (compared-Does stale prior e (read cf.entry.path) p refl)
            | inr v ↦ rw v (replaced-Does stale p prior.doc_id none (inl refl))
          ])
    ]

    module _ (absent : get prev rel ≡ none) where
      candidate-Does :
          (o : Option Text) (p : Progress)
          → get_inode prev.by_inode cf.entry.inode ≡ o
          → Does p (candidate read hash_bytes prev rel cf o p)
      unfolding candidate moved
      candidate-Does none p l = fresh-Does (absent-Stale absent) p
      candidate-Does (some old) p l = elim (Bool-cases (has p.consumed_old old)) [
        | inl u ↦ rw u (fresh-Does (absent-Stale absent) p)
        | inr u ↦ rw u (at_old (get prev old) refl)
      ]
        where
          at_old :
              (o : Option FileState)
              → get prev old ≡ o
              → Does p (moved read hash_bytes rel cf old o p)
          at_old none e = fresh-Does (absent-Stale absent) p
          at_old (some prior) e = moved-Does (absent-Stale absent) old prior (inr (absent, l)) e p

    at_path-Does :
        (o : Option FileState)
        → get prev rel ≡ o
        → (p : Progress) → Does p (at_path read hash_bytes prev rel cf o p)
    unfolding at_path unknown
    at_path-Does (some prior) e p = known-Does prior e p
    at_path-Does none e p = elim (Bool-cases (cf.entry.inode == 0)) [
      | inl u ↦ rw u (fresh-Does (absent-Stale e) p)
      | inr u ↦ rw u (candidate-Does e (get_inode prev.by_inode cf.entry.inode) p refl)
    ]

  one_file-Does :
      (cf : CrawledFile) (p : Progress)
      → Does (relative_path root cf.entry.path) cf p (one_file read hash_bytes prev root cf p)
  unfolding one_file examine
  one_file-Does cf p =
      at_path-Does (relative_path root cf.entry.path) cf
        (get prev (relative_path root cf.entry.path)) refl (examine p)

  crawl_rounds-Grows :
      (files : List CrawledFile) (p : Progress)
      → Grows p (crawl_rounds read hash_bytes prev root files p)
  unfolding crawl_rounds
  crawl_rounds-Grows [] p x h = h
  crawl_rounds-Grows (cf ∷ files) p x h =
      crawl_rounds-Grows files (one_file read hash_bytes prev root cf p) x
        ((one_file-Does cf p).0 x h)

  crawl_rounds-Answered :
      (files : List CrawledFile) (p : Progress) (cf : CrawledFile)
      → Has cf files
      → Answered
          (crawl_rounds read hash_bytes prev root files p).plan.changes
          cf
          (relative_path root cf.entry.path)
  unfolding crawl_rounds
  crawl_rounds-Answered [] p cf h = elim h [ ]
  crawl_rounds-Answered (cf ∷ files) p _ here =
      let q = one_file read hash_bytes prev root cf p in
      Answered-mono cf (relative_path root cf.entry.path) (crawl_rounds-Grows files q)
        (one_file-Does cf p).1
  crawl_rounds-Answered (f ∷ files) p cf (there h) =
      crawl_rounds-Answered files (one_file read hash_bytes prev root f p) cf h

  sweep-Grows : (states : List (Text × FileState)) (p : Progress) → Grows p (sweep states p)
  unfolding sweep
  sweep-Grows [] p x h = h
  sweep-Grows ((q, s) ∷ states) p x h = elim (Bool-cases (has p.seen q || has p.consumed_old q)) [
    | inl e ↦ rw e (sweep-Grows states p x h)
    | inr e ↦
        rw e (sweep-Grows states (push (delete s.doc_id) p) x (push-Grows (delete s.doc_id) p x h))
  ]

  pub reconcile-Answered :
      (crawled : List CrawledFile) (cf : CrawledFile)
      → Has cf crawled
      → Answered
          (reconcile read hash_bytes prev root crawled).changes
          cf
          (relative_path root cf.entry.path)
  unfolding reconcile
  reconcile-Answered crawled cf h =
      Answered-mono cf (relative_path root cf.entry.path)
        (sweep-Grows prev.by_path (crawl_rounds read hash_bytes prev root crawled start))
        (crawl_rounds-Answered crawled start cf h)
