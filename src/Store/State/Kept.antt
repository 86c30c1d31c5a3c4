-- ===== src/Store/State/Kept.antt =====
-- src/store/state.rs, `reconcile`: what becomes of the documents of the committed state.
use ripindex.Common.{
  ◌≡◌, refl, ◌⊎◌, inl, inr, Bool, true, false, ◌||◌, Option, some, List, [], ◌∷◌, ◌++◌,
  if◌then◌else◌, Bool-cases, Has, here, there, Has-last, ℕ,
}
use mathlib.Core.Path.{subst}
use ripindex.Format.{Bytes}
use ripindex.Crawl.{PathBuf, CrawledFile}
use ripindex.Query.Syntax.{Text, text_eq, text_eq_sound}
use ripindex.Store.State.{
  FileState, StateIndex, delete, Progress, start, get, get_state, has, push, examine,
}
use ripindex.Store.State.Reconcile.{one_file, crawl_rounds, sweep, reconcile}
use ripindex.Store.State.Settled.{rel_of, Kept, deleted, Kept-append, Settled}
use ripindex.Store.State.Accounts.{at_path-Settled}

module _ (read : PathBuf → Option Bytes) (hash_bytes : Bytes → ℕ) (prev : StateIndex)
    (root : PathBuf) (crawled : List CrawledFile) where
  one_file-Settled :
      (cf : CrawledFile) (p : Progress)
      → Has cf crawled
      → Settled read hash_bytes prev root crawled p
      → Settled read hash_bytes prev root crawled (one_file read hash_bytes prev root cf p)
  unfolding one_file examine
  one_file-Settled cf p i h =
      at_path-Settled read hash_bytes prev root crawled
        (rel_of read hash_bytes prev root crawled cf) cf i refl
        (get prev (rel_of read hash_bytes prev root crawled cf)) (examine p) refl h

  crawl_rounds-Settled :
      (files : List CrawledFile) (p : Progress)
      → ((cf : CrawledFile) → Has cf files → Has cf crawled)
      → Settled read hash_bytes prev root crawled p
      → Settled read hash_bytes prev root crawled (crawl_rounds read hash_bytes prev root files p)
  unfolding crawl_rounds
  crawl_rounds-Settled [] p i h = h
  crawl_rounds-Settled (cf ∷ files) p i h =
      crawl_rounds-Settled files (one_file read hash_bytes prev root cf p) (λ c k. i c (there k))
        (one_file-Settled cf p (i cf here) h)

  sweep-Kept :
      (states : List (Text × FileState)) (p : Progress) (path : Text) (st : FileState)
      → Kept read hash_bytes prev root crawled p.plan.changes path st
      → Kept read hash_bytes prev root crawled (sweep states p).plan.changes path st
  unfolding sweep push
  sweep-Kept [] p path st k = k
  sweep-Kept ((q, s) ∷ states) p path st k =
      elim (Bool-cases (has p.seen q || has p.consumed_old q)) [
        | inl e ↦ rw e (sweep-Kept states p path st k)
        | inr e ↦ rw e (
            sweep-Kept states (push (delete s.doc_id) p) path st (
              Kept-append read hash_bytes prev root crawled p.plan.changes (delete s.doc_id ∷ [])
                path st k))
      ]

  sweep-gone :
      (states : List (Text × FileState)) (p : Progress) (path : Text) (st : FileState)
      → get_state states path ≡ some st
      → (has p.seen path || has p.consumed_old path) ≡ false
      → Kept read hash_bytes prev root crawled (sweep states p).plan.changes path st
  unfolding sweep push get_state
  sweep-gone [] p path st e n = absurd cc
  sweep-gone ((q, s) ∷ states) p path st e n = elim (Bool-cases (text_eq q path)) [
    | inl same ↦
        let r : q ≡ path = text_eq_sound q path same in
        let f : s ≡ st =
          some_inj (subst (λ b. (if b then some s else get_state states path) ≡ some st) same e) in
        let m : (has p.seen q || has p.consumed_old q) ≡ false = rw r n in
        rw m (
          sweep-Kept states (push (delete s.doc_id) p) path st (
            deleted (
              subst (λ z. Has (delete z.doc_id) (p.plan.changes ++ delete s.doc_id ∷ [])) f
                (Has-last p.plan.changes (delete s.doc_id)))))
    | inr other ↦
        let f = subst (λ b. (if b then some s else get_state states path) ≡ some st) other e in
        elim (Bool-cases (has p.seen q || has p.consumed_old q)) [
          | inl v ↦ rw v (sweep-gone states p path st f n)
          | inr v ↦ rw v (sweep-gone states (push (delete s.doc_id) p) path st f n)
        ]
  ]
    where
      some_inj : {a b : FileState} → some a ≡ some b → a ≡ b
      some_inj h = cc

  start-Settled : Settled read hash_bytes prev root crawled start
  unfolding has
  start-Settled path st e (inl s) = absurd cc
  start-Settled path st e (inr s) = absurd cc

  -- Every document of the committed state is deleted by the plan, or is left at its path, where the
  -- crawl has a file with its inode, time and size, or is patched to the path of a crawled file
  -- that has its time and size or, when read, its content hash.
  pub reconcile-Kept :
      (path : Text) (st : FileState)
      → get prev path ≡ some st
      → Kept read hash_bytes prev root crawled
          (reconcile read hash_bytes prev root crawled).changes
          path
          st
  unfolding reconcile get
  reconcile-Kept path st e = elim (Bool-cases (has q.seen path || has q.consumed_old path)) [
    | inr n ↦ sweep-gone prev.by_path q path st e n
    | inl s ↦ sweep-Kept prev.by_path q path st (settled path st e (either (has q.seen path) s))
  ]
    where
      q : Progress
      q = crawl_rounds read hash_bytes prev root crawled start

      settled : Settled read hash_bytes prev root crawled q
      settled = crawl_rounds-Settled crawled start (λ cf k. k) start-Settled

      either : (b : Bool) {c : Bool} → (b || c) ≡ true → (b ≡ true) ⊎ (c ≡ true)
      either true h = inl refl
      either false h = inr h
