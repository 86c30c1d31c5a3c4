-- ===== src/Store/State/Effect.antt =====
-- src/store/state.rs, `reconcile`: which documents the step over one file touches.
use ripindex.Common.{
  arith, ℕ, ◌+◌, ◌≤◌, ◌≡◌, refl, ap, false, ◌&&◌, Option, none, some, List, [], ◌∷◌, ◌++◌, length,
  ◌==◌, if◌then◌else◌, Bool-cases, inl, inr,
}
use ripindex.Format.{Bytes}
use ripindex.Crawl.{PathBuf, CrawledFile}
use ripindex.Index.Table.{was_read}
use ripindex.Query.Syntax.{Text}
use ripindex.Store.State.{
  FileState, StateIndex, Change, delete, patch, reindex, Progress, get, get_inode, has, see,
  consume, push, count_read, is_text,
}
use ripindex.Store.State.Reconcile.{
  patched, reindexed, same_time_size, unchanged, fresh, by_hash, compared, known, moved_read, moved,
  candidate, unknown, at_path,
}

-- How many changes delete or patch a document.
abbrev pub touches : ℕ → List Change → ℕ
touches x [] = 0
touches x (delete id ∷ c) = (if id == x then 1 else 0) + touches x c
touches x (patch id i m s path ∷ c) = (if id == x then 1 else 0) + touches x c
touches x (reindex path k i m s o ∷ c) = touches x c

pub touches-append : (x : ℕ) (c d : List Change) → touches x (c ++ d) ≡ touches x c + touches x d
touches-append x [] d = omega arith
touches-append x (delete id ∷ c) d = omega (arith, touches-append x c d)
touches-append x (patch id i m s path ∷ c) d = omega (arith, touches-append x c d)
touches-append x (reindex path k i m s o ∷ c) d = touches-append x c d

-- A step touches no document but `id`, and that at most once.
abbrev pub Touches : ℕ → Progress → Progress → Type 0
Touches id p q =
    (x : ℕ) → touches x q.plan.changes ≤ touches x p.plan.changes + (if id == x then 1 else 0)

abbrev pub Marks : Text → Progress → Progress → Type 0
Marks rel p q = (q.seen ≡ rel ∷ p.seen) × (q.consumed_old ≡ p.consumed_old)

abbrev Same : Progress → Progress → Type 0
Same p q = (q.seen ≡ p.seen) × (q.consumed_old ≡ p.consumed_old)

module _ (read : PathBuf → Option Bytes) (hash_bytes : Bytes → ℕ) (prev : StateIndex) where
  -- What the step over a file at a path does from `p` to `q`.
  pub data Effect (inode : ℕ) (rel : Text) (p q : Progress) : Type 0 where
    quiet :
        ((x : ℕ) → touches x q.plan.changes ≤ touches x p.plan.changes)
        → Marks rel p q
        → Effect inode rel p q
    own :
        (st : FileState)
        → get prev rel ≡ some st
        → Touches st.doc_id p q
        → Marks rel p q
        → Effect inode rel p q
    away :
        (old : Text) (st : FileState)
        → get prev rel ≡ none
        → get_inode prev.by_inode inode ≡ some old
        → has p.consumed_old old ≡ false
        → get prev old ≡ some st
        → Touches st.doc_id p q
        → q.seen ≡ rel ∷ p.seen
        → q.consumed_old ≡ old ∷ p.consumed_old
        → Effect inode rel p q

  module _ (rel : Text) (cf : CrawledFile) where
    delete-Touches : (id : ℕ) (p : Progress) → Touches id p (push (delete id) p)
    unfolding push
    delete-Touches id p x = omega (arith, touches-append x p.plan.changes (delete id ∷ []))

    patched-Touches :
        (st : FileState) (p : Progress) → Touches st.doc_id p (push (patched st cf rel) p)
    unfolding push
    patched-Touches st p x = omega (arith, touches-append x p.plan.changes (patched st cf rel ∷ []))

    replaced-Touches :
        (id : ℕ) (o : Option Bytes) (p : Progress)
        → Touches id p (push (reindexed cf rel o) (push (delete id) p))
    unfolding push
    replaced-Touches id o p x = omega (
      arith,
      touches-append x p.plan.changes (delete id ∷ []),
      touches-append x (p.plan.changes ++ delete id ∷ []) (reindexed cf rel o ∷ []),
    )

    fresh-quiet :
        (p : Progress) (x : ℕ) → touches x (fresh rel cf p).plan.changes ≤ touches x p.plan.changes
    unfolding fresh see push
    fresh-quiet p x = omega (arith, touches-append x p.plan.changes (reindexed cf rel none ∷ []))

    fresh-Marks : (p : Progress) → Marks rel p (fresh rel cf p)
    unfolding fresh see push
    fresh-Marks p = (refl, refl)

    by_hash-Touches :
        (st : FileState) (bytes : Bytes) (p : Progress)
        → Touches st.doc_id p (by_hash read hash_bytes rel cf st bytes p)
          × Same p (by_hash read hash_bytes rel cf st bytes p)
    unfolding by_hash push
    by_hash-Touches st bytes p = elim (Bool-cases (hash_bytes bytes == st.content_hash)) [
      | inl e ↦ rw e (patched-Touches st p, (refl, refl))
      | inr e ↦ rw e (replaced-Touches st.doc_id (some bytes) p, (refl, refl))
    ]

    compared-Touches :
        (st : FileState) (o : Option Bytes) (p : Progress)
        → Touches st.doc_id p (compared read hash_bytes rel cf st o p)
          × Same p (compared read hash_bytes rel cf st o p)
    unfolding compared count_read push
    compared-Touches st none p = (delete-Touches st.doc_id p, (refl, refl))
    compared-Touches st (some bytes) p = by_hash-Touches st bytes (count_read (length bytes) p)

    known-Effect :
        (st : FileState) (p : Progress)
        → get prev rel ≡ some st
        → Effect cf.entry.inode rel p (known read hash_bytes rel cf st p)
    unfolding known see push
    known-Effect st p e = elim (Bool-cases (unchanged st cf)) [
      | inl u ↦ rw u (quiet (λ x. omega arith) (refl, refl))
      | inr u ↦ rw u (elim (Bool-cases (is_text cf.kind && was_read st.status)) [
        | inl v ↦
            let c = compared-Touches st (read cf.entry.path) p in
            rw v (own st e c.0 (ap (λ s. rel ∷ s) c.1.0, c.1.1))
        | inr v ↦ rw v (own st e (replaced-Touches st.doc_id none p) (refl, refl))
      ])
    ]

    module _ (absent : get prev rel ≡ none) (old : Text)
        (looked_up : get_inode prev.by_inode cf.entry.inode ≡ some old) where
      moved_read-Effect :
          (st : FileState) (o : Option Bytes) (p : Progress)
          → get prev old ≡ some st
          → has p.consumed_old old ≡ false
          → Effect cf.entry.inode rel p (moved_read read hash_bytes rel cf old st o p)
      unfolding moved_read see consume count_read
      moved_read-Effect st none p e n = quiet (fresh-quiet p) (fresh-Marks p)
      moved_read-Effect st (some bytes) p e n =
          let b = by_hash-Touches st bytes (consume old (count_read (length bytes) p)) in
          away old st absent looked_up n e b.0 (ap (λ s. rel ∷ s) b.1.0) b.1.1

      moved-Effect :
          (o : Option FileState) (p : Progress)
          → get prev old ≡ o
          → has p.consumed_old old ≡ false
          → Effect cf.entry.inode rel p (moved read hash_bytes rel cf old o p)
      unfolding moved see consume push fresh
      moved-Effect none p e n = quiet (fresh-quiet p) (fresh-Marks p)
      moved-Effect (some st) p e n = elim (Bool-cases (same_time_size st cf)) [
        | inl u ↦ rw u (away old st absent looked_up n e (patched-Touches st p) refl refl)
        | inr u ↦ rw u (elim (Bool-cases (is_text cf.kind && was_read st.status)) [
          | inl v ↦ rw v (moved_read-Effect st (read cf.entry.path) p e n)
          | inr v ↦
              rw v (away old st absent looked_up n e (replaced-Touches st.doc_id none p) refl refl)
        ])
      ]

    candidate-Effect :
        get prev rel ≡ none
        → (o : Option Text) (p : Progress) → get_inode prev.by_inode cf.entry.inode ≡ o
        → Effect cf.entry.inode rel p (candidate read hash_bytes prev rel cf o p)
    unfolding candidate
    candidate-Effect a none p e = quiet (fresh-quiet p) (fresh-Marks p)
    candidate-Effect a (some old) p e = elim (Bool-cases (has p.consumed_old old)) [
      | inl n ↦ rw n (quiet (fresh-quiet p) (fresh-Marks p))
      | inr n ↦ rw n (moved-Effect a old e (get prev old) p refl n)
    ]

    pub at_path-Effect :
        (o : Option FileState) (p : Progress)
        → get prev rel ≡ o
        → Effect cf.entry.inode rel p (at_path read hash_bytes prev rel cf o p)
    unfolding at_path unknown
    at_path-Effect (some st) p e = known-Effect st p e
    at_path-Effect none p e = elim (Bool-cases (cf.entry.inode == 0)) [
      | inl z ↦ rw z (quiet (fresh-quiet p) (fresh-Marks p))
      | inr z ↦ rw z (candidate-Effect e (get_inode prev.by_inode cf.entry.inode) p refl)
    ]
