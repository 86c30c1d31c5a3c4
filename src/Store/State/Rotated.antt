-- ===== src/Store/State/Rotated.antt =====
-- src/store/state.rs, `reconcile`, on a file moved to a new path while another file takes its own.
use ripindex.Common.{
  ℕ, suc, ◌≡◌, refl, ap, ◌∙◌, true, false, ◌&&◌, ◌||◌, Option, none, some, List, [], ◌∷◌, ◌++◌,
  length, ◌==◌, Bool-cases, inl, inr, Has, here, there, Has-append,
}
use ripindex.Format.{Bytes}
use ripindex.Crawl.{PathBuf, CrawledFile, relative_path}
use ripindex.Index.Table.{was_read}
use ripindex.Query.Syntax.{Text}
use ripindex.Store.State.{
  FileState, StateIndex, Change, delete, patch, reindex, Progress, start, get, get_inode, has, see,
  consume, push, examine, count_read, is_text, reindexes,
}
use ripindex.Store.State.Reconcile.{
  patched, reindexed, same_time_size, unchanged, by_hash, compared, known, moved, candidate,
  unknown, at_path, one_file, crawl_rounds, sweep, reconcile,
}

reindexes-delete : (c : List Change) (id : ℕ) → reindexes (c ++ delete id ∷ []) ≡ reindexes c
unfolding reindexes
reindexes-delete [] id = refl
reindexes-delete (delete d ∷ c) id = reindexes-delete c id
reindexes-delete (patch d i m s path ∷ c) id = reindexes-delete c id
reindexes-delete (reindex path k i m s o ∷ c) id = ap suc (reindexes-delete c id)

reindexes-sweep :
    (states : List (Text × FileState)) (p : Progress)
    → reindexes (sweep states p).plan.changes ≡ reindexes p.plan.changes
unfolding sweep push
reindexes-sweep [] p = refl
reindexes-sweep ((q, s) ∷ states) p = elim (Bool-cases (has p.seen q || has p.consumed_old q)) [
  | inl e ↦ rw e (reindexes-sweep states p)
  | inr e ↦
      rw e (
        reindexes-sweep states (push (delete s.doc_id) p)
        ∙ reindexes-delete p.plan.changes s.doc_id)
]

Has-sweep :
    (states : List (Text × FileState)) (p : Progress) (x : Change)
    → Has x p.plan.changes
    → Has x (sweep states p).plan.changes
unfolding sweep push
Has-sweep [] p x h = h
Has-sweep ((q, s) ∷ states) p x h = elim (Bool-cases (has p.seen q || has p.consumed_old q)) [
  | inl e ↦ rw e (Has-sweep states p x h)
  | inr e ↦ rw e (
      Has-sweep states (push (delete s.doc_id) p) x
        (Has-append p.plan.changes (delete s.doc_id ∷ []) h))
]

module _ (read : PathBuf → Option Bytes) (hash_bytes : Bytes → ℕ) (prev : StateIndex)
    (root : PathBuf) where
  edited :
      (cf : CrawledFile) (st : FileState) (bytes : Bytes) (p : Progress)
      → get prev (relative_path root cf.entry.path) ≡ some st
      → unchanged st cf ≡ false
      → (is_text cf.kind && was_read st.status) ≡ true
      → read cf.entry.path ≡ some bytes
      → (hash_bytes bytes == st.content_hash) ≡ false
      → one_file read hash_bytes prev root cf p
        ≡ see (relative_path root cf.entry.path) (
            push
              (reindexed cf (relative_path root cf.entry.path) (some bytes))
              (push (delete st.doc_id) (count_read (length bytes) (examine p))))
  unfolding one_file at_path known compared by_hash
  edited cf st bytes p g u t r h = rw g (rw u (rw t (rw r (rw h refl))))

  renamed :
      (cf : CrawledFile) (old : Text) (st : FileState) (p : Progress)
      → get prev (relative_path root cf.entry.path) ≡ none
      → (cf.entry.inode == 0) ≡ false
      → get_inode prev.by_inode cf.entry.inode ≡ some old
      → has p.consumed_old old ≡ false
      → get prev old ≡ some st
      → same_time_size st cf ≡ true
      → one_file read hash_bytes prev root cf p
        ≡ see
            (relative_path root cf.entry.path)
            (consume old (push (patched st cf (relative_path root cf.entry.path)) (examine p)))
  unfolding one_file at_path unknown candidate moved examine
  renamed cf old st p g z i c o s = rw g (rw z (rw i (rw c (rw o (rw s refl)))))

  -- A known text file's bytes have changed, and a file of the crawl at a path that is not known has
  -- the inode, the time and the size of the document there: a log was rotated. Then the plan both
  -- deletes that document and patches it to the new path, and its one reindex is of the old path.
  pub reconcile_rotated :
      (new_log old_log : CrawledFile) (st : FileState) (bytes : Bytes)
      → get prev (relative_path root new_log.entry.path) ≡ some st
      → unchanged st new_log ≡ false
      → (is_text new_log.kind && was_read st.status) ≡ true
      → read new_log.entry.path ≡ some bytes
      → (hash_bytes bytes == st.content_hash) ≡ false
      → get prev (relative_path root old_log.entry.path) ≡ none
      → (old_log.entry.inode == 0) ≡ false
      → get_inode prev.by_inode old_log.entry.inode ≡ some (relative_path root new_log.entry.path)
      → same_time_size st old_log ≡ true
      → Has
          (delete st.doc_id)
          (reconcile read hash_bytes prev root (new_log ∷ old_log ∷ [])).changes
        × Has
            (patched st old_log (relative_path root old_log.entry.path))
            (reconcile read hash_bytes prev root (new_log ∷ old_log ∷ [])).changes
        × Has
            (reindexed new_log (relative_path root new_log.entry.path) (some bytes))
            (reconcile read hash_bytes prev root (new_log ∷ old_log ∷ [])).changes
        × (reindexes (reconcile read hash_bytes prev root (new_log ∷ old_log ∷ [])).changes ≡ 1)
  unfolding reconcile crawl_rounds see push consume count_read examine has reindexes
  reconcile_rotated new_log old_log st bytes g u t r h n z i s = rw planned (
    Has-sweep prev.by_path q (delete st.doc_id) first,
    Has-sweep prev.by_path q (patched st old_log b) third,
    Has-sweep prev.by_path q (reindexed new_log a (some bytes)) second,
    reindexes-sweep prev.by_path q ∙ count,
  )
    where
      a : Text
      a = relative_path root new_log.entry.path

      b : Text
      b = relative_path root old_log.entry.path

      p : Progress
      p = see a (
          push (reindexed new_log a (some bytes))
            (push (delete st.doc_id) (count_read (length bytes) (examine start))))

      q : Progress
      q = see b (consume a (push (patched st old_log b) (examine p)))

      consumed : has p.consumed_old a ≡ false
      consumed = refl

      first : Has (delete st.doc_id) q.plan.changes
      first = here

      second : Has (reindexed new_log a (some bytes)) q.plan.changes
      second = there here

      third : Has (patched st old_log b) q.plan.changes
      third = there (there here)

      count : reindexes q.plan.changes ≡ 1
      count = refl

      rounds :
          one_file read hash_bytes prev root old_log
            (one_file read hash_bytes prev root new_log start)
          ≡ q
      rounds =
          ap (one_file read hash_bytes prev root old_log) (edited new_log st bytes start g u t r h)
          ∙ renamed old_log a st p n z i consumed g s

      planned :
          reconcile read hash_bytes prev root (new_log ∷ old_log ∷ []) ≡ (sweep prev.by_path q).plan
      planned = ap (λ k. (sweep prev.by_path k).plan) rounds
