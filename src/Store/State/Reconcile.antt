-- ===== src/Store/State/Reconcile.antt =====
-- src/store/state.rs, `reconcile`: the loop over a crawl and the sweep of what it did not see.
use ripindex.Common.{
  ℕ, Bool, ◌&&◌, ◌||◌, Option, none, some, List, [], ◌∷◌, length, ◌==◌, if◌then◌else◌,
}
use ripindex.Format.{Bytes}
use ripindex.Crawl.{PathBuf, CrawledFile, relative_path}
use ripindex.Index.Table.{was_read}
use ripindex.Query.Syntax.{Text}
use ripindex.Store.State.{
  FileState, StateIndex, Change, delete, patch, reindex, Plan, Progress, start, time_to_nanos,
  nanos_eq, get, get_inode, has, see, consume, push, examine, count_read, is_text,
}

-- `patch(doc_id, e.inode, new_mtime, e.size, rel)`
abbrev pub patched : FileState → CrawledFile → Text → Change
patched prior cf rel =
    patch prior.doc_id cf.entry.inode (time_to_nanos cf.entry.mtime) cf.entry.size rel

-- `reindex(rel, cf.kind, e.inode, new_mtime, e.size, bytes)`
abbrev pub reindexed : CrawledFile → Text → Option Bytes → Change
reindexed cf rel bytes =
    reindex rel cf.kind cf.entry.inode (time_to_nanos cf.entry.mtime) cf.entry.size bytes

unfoldable pub same_time_size : FileState → CrawledFile → Bool
unfolding nanos_eq time_to_nanos
same_time_size prior cf =
    nanos_eq prior.mtime_nanos (time_to_nanos cf.entry.mtime) && prior.size == cf.entry.size

unfoldable pub unchanged : FileState → CrawledFile → Bool
unfolding same_time_size
unchanged prior cf = prior.inode == cf.entry.inode && same_time_size prior cf

-- No usable prior state.
unfoldable pub fresh : Text → CrawledFile → Progress → Progress
unfolding see push
fresh rel cf p = see rel (push (reindexed cf rel none) p)

module _ (read : PathBuf → Option Bytes) (hash_bytes : Bytes → ℕ) where
  unfoldable pub by_hash : Text → CrawledFile → FileState → Bytes → Progress → Progress
  unfolding push
  by_hash rel cf prior bytes p =
      if hash_bytes bytes == prior.content_hash
      then push (patched prior cf rel) p
      else push (reindexed cf rel (some bytes)) (push (delete prior.doc_id) p)

  unfoldable pub compared : Text → CrawledFile → FileState → Option Bytes → Progress → Progress
  unfolding push count_read by_hash
  compared rel cf prior none p = push (delete prior.doc_id) p
  compared rel cf prior (some bytes) p = by_hash rel cf prior bytes (count_read (length bytes) p)

  -- The path has a committed state.
  unfoldable pub known : Text → CrawledFile → FileState → Progress → Progress
  unfolding unchanged see push compared is_text was_read
  known rel cf prior p =
      if unchanged prior cf
      then see rel p
      else if is_text cf.kind && was_read prior.status
      then see rel (compared rel cf prior (read cf.entry.path) p)
      else see rel (push (reindexed cf rel none) (push (delete prior.doc_id) p))

  unfoldable pub moved_read :
      Text → CrawledFile → Text → FileState → Option Bytes → Progress → Progress
  unfolding see consume count_read by_hash fresh
  moved_read rel cf old_path prior none p = fresh rel cf p
  moved_read rel cf old_path prior (some bytes) p =
      see rel (by_hash rel cf prior bytes (consume old_path (count_read (length bytes) p)))

  unfoldable pub moved : Text → CrawledFile → Text → Option FileState → Progress → Progress
  unfolding same_time_size see consume push fresh moved_read is_text was_read
  moved rel cf old_path none p = fresh rel cf p
  moved rel cf old_path (some prior) p =
      if same_time_size prior cf
      then see rel (consume old_path (push (patched prior cf rel) p))
      else if is_text cf.kind && was_read prior.status
      then moved_read rel cf old_path prior (read cf.entry.path) p
      else fresh rel cf (consume old_path (push (delete prior.doc_id) p))

  module _ (prev : StateIndex) where
    unfoldable pub candidate : Text → CrawledFile → Option Text → Progress → Progress
    unfolding get has fresh moved
    candidate rel cf none p = fresh rel cf p
    candidate rel cf (some old_path) p =
        if has p.consumed_old old_path
        then fresh rel cf p
        else moved rel cf old_path (get prev old_path) p

    -- The path has none.
    unfoldable pub unknown : Text → CrawledFile → Progress → Progress
    unfolding get_inode fresh candidate
    unknown rel cf p =
        if cf.entry.inode == 0
        then fresh rel cf p
        else candidate rel cf (get_inode prev.by_inode cf.entry.inode) p

    unfoldable pub at_path : Text → CrawledFile → Option FileState → Progress → Progress
    unfolding known unknown
    at_path rel cf (some prior) p = known rel cf prior p
    at_path rel cf none p = unknown rel cf p

    module _ (root : PathBuf) where
      unfoldable pub one_file : CrawledFile → Progress → Progress
      unfolding relative_path get examine at_path
      one_file cf p =
          let rel = relative_path root cf.entry.path in at_path rel cf (get prev rel) (examine p)

      unfoldable pub crawl_rounds : List CrawledFile → Progress → Progress
      unfolding one_file
      crawl_rounds [] p = p
      crawl_rounds (cf ∷ crawled) p = crawl_rounds crawled (one_file cf p)

-- Whatever was neither seen nor consumed is gone.
unfoldable pub sweep : List (Text × FileState) → Progress → Progress
unfolding has push
sweep [] p = p
sweep ((path, state) ∷ rest) p =
    if has p.seen path || has p.consumed_old path
    then sweep rest p
    else sweep rest (push (delete state.doc_id) p)

unfoldable pub reconcile :
    (PathBuf → Option Bytes) → (Bytes → ℕ) → StateIndex → PathBuf → List CrawledFile → Plan
unfolding sweep crawl_rounds
reconcile read hash_bytes prev root crawled =
    (sweep prev.by_path (crawl_rounds read hash_bytes prev root crawled start)).plan
