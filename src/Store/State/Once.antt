-- ===== src/Store/State/Once.antt =====
-- src/store/state.rs, `reconcile`, where no crawled file stands at the path that a rename left: no
-- document is touched twice.
use ripindex.Common.{arith, ℕ, ◌≤◌, ◌≡◌, Option, some, List, [], Bool-cases, inl, inr}
use ripindex.Format.{Bytes}
use ripindex.Crawl.{PathBuf, CrawledFile}
use ripindex.Query.Syntax.{Text}
use ripindex.Store.State.{FileState, StateIndex, Progress, start, get}
use ripindex.Store.State.Reconcile.{crawl_rounds, reconcile}
use ripindex.Store.State.Effect.{touches}
use ripindex.Store.State.Step.{Distinct, AllGone, Inv}
use ripindex.Store.State.Rounds.{crawl_rounds-Inv, start-Inv}
use ripindex.Store.State.Marked.{ids_at, same_path, get_state-Has, marked, sweep-ids, sweep-marked}

module _ (read : PathBuf → Option Bytes) (hash_bytes : Bytes → ℕ) (prev : StateIndex)
    (root : PathBuf) (crawled : List CrawledFile) where
  module _ (unique : (x : ℕ) → ids_at x prev.by_path ≤ 1)
      (gone : AllGone read hash_bytes prev root crawled) where
    -- Where the files of the crawl have distinct paths, no id stands twice in the committed state, and
    -- no crawled file stands at the path of a document whose inode a file at an unknown path has, the
    -- plan deletes or patches every committed document at most once: none is both deleted and
    -- patched.
    pub reconcile_once :
        Distinct read hash_bytes prev root crawled crawled
        → (path : Text) (st : FileState) → get prev path ≡ some st
        → touches st.doc_id (reconcile read hash_bytes prev root crawled).changes ≤ 1
    unfolding reconcile get
    reconcile_once d path st e = elim (Bool-cases (marked p path)) [
      | inl m ↦
          let same = sweep-marked prev.by_path p path st.doc_id m (λ q s k r.
            same_path prev.by_path unique q path s st k (get_state-Has prev.by_path path st e) r) in
          rw same (v.counted path st e).0
      | inr m ↦
          omega
            (arith, sweep-ids prev.by_path p st.doc_id, unique st.doc_id, (v.counted path st e).1 m)
    ]
      where
        p : Progress
        p = crawl_rounds read hash_bytes prev root crawled start

        v : Inv read hash_bytes prev root crawled unique gone [] p
        v =
            crawl_rounds-Inv read hash_bytes prev root crawled unique gone crawled start (λ c k. k)
              d (start-Inv read hash_bytes prev root crawled unique gone)
