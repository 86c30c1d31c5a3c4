-- ===== src/Tests/State.antt =====
-- src/store/state.rs, on a state of one document.
use ripindex.Common.{
  there, ◌≤◌, sym, ◌∙◌, arith, ℕ, ◌+◌, ◌≡◌, refl, Option, some, [], ◌∷◌, Has, here,
}
use ripindex.Format.{Bytes, pos}
use ripindex.Crawl.{PathBuf, root_dir, normal, CrawledFile, FileKind, relative_path}
use ripindex.Index.Table.{DocStatus, DocMeta, was_read}
use ripindex.Query.Syntax.{Text, text_eq}
use ripindex.Store.State.{
  FileState, StateIndex, delete, get, get_state, get_inode, is_text, reindexes, time_to_nanos,
  nanos_eq, from_docs, add_docs, add_doc, put_state, put_inode, state_of,
}
use ripindex.Store.State.Reconcile.{patched, reindexed, same_time_size, unchanged, reconcile}
use ripindex.Store.State.Settled.{Kept}
use ripindex.Store.State.Kept.{reconcile-Kept}
use ripindex.Store.State.Covered.{Covered, reconcile-Covered}
use ripindex.Store.State.Effect.{touches}
use ripindex.Store.State.Marked.{ids_at}
use ripindex.Store.State.Step.{AllGone}
use ripindex.Store.State.Once.{reconcile_once}
use ripindex.Store.State.Rotated.{reconcile_rotated}

abbrev the_root : PathBuf
the_root = root_dir ∷ normal (0x72 ∷ []) ∷ []

abbrev log_name : Text
log_name = 0x61 ∷ []

abbrev old_name : Text
old_name = 0x62 ∷ []

abbrev at_root : Text → PathBuf
at_root name = root_dir ∷ normal (0x72 ∷ []) ∷ normal name ∷ []

abbrev log_meta : DocMeta
log_meta = record {
  path = at_root log_name;
  inode = 10;
  mtime = pos 100;
  size = 2;
  len = 1;
  status = DocStatus.indexed;
  content_hash = 5;
}

abbrev log_state : FileState
log_state = record {
  doc_id = 1;
  inode = 10;
  mtime_nanos = pos 100;
  size = 2;
  content_hash = 5;
  status = DocStatus.indexed;
}

abbrev committed : StateIndex
committed = from_docs the_root ((1, log_meta) ∷ [])

abbrev file : Text → ℕ → ℕ → CrawledFile
file name inode nanos = record {
  entry = record { path = at_root name; inode = inode; mtime = pos nanos; size = 2 };
  kind = FileKind.text;
}

abbrev sum : Bytes → ℕ
sum [] = 0
sum (b ∷ bytes) = b + sum bytes

abbrev read_all : PathBuf → Option Bytes
read_all path = some (4 ∷ 4 ∷ [])

abbrev new_log : CrawledFile
new_log = file log_name 11 200

abbrev old_log : CrawledFile
old_log = file old_name 10 100

reconcile-Kept_example :
    Kept read_all sum committed the_root
      (old_log ∷ [])
      (reconcile read_all sum committed the_root (old_log ∷ [])).changes
      log_name
      log_state
unfolding get get_state from_docs add_docs add_doc put_state put_inode state_of time_to_nanos
    relative_path text_eq
reconcile-Kept_example =
    reconcile-Kept read_all sum committed the_root (old_log ∷ []) log_name log_state refl

reconcile_rotated_example :
    Has (delete 1) (reconcile read_all sum committed the_root (new_log ∷ old_log ∷ [])).changes
    × Has
        (patched log_state old_log old_name)
        (reconcile read_all sum committed the_root (new_log ∷ old_log ∷ [])).changes
    × Has
        (reindexed new_log log_name (some (4 ∷ 4 ∷ [])))
        (reconcile read_all sum committed the_root (new_log ∷ old_log ∷ [])).changes
    × (reindexes (reconcile read_all sum committed the_root (new_log ∷ old_log ∷ [])).changes ≡ 1)
unfolding get get_state get_inode from_docs add_docs add_doc put_state put_inode state_of
    time_to_nanos relative_path text_eq unchanged same_time_size nanos_eq is_text was_read
reconcile_rotated_example =
    reconcile_rotated read_all sum committed the_root new_log old_log log_state (4 ∷ 4 ∷ []) refl
      refl refl refl refl refl refl refl refl

committed-AllGone : AllGone read_all sum committed the_root (old_log ∷ [])
unfolding get get_state get_inode from_docs add_docs add_doc put_state put_inode state_of
    time_to_nanos relative_path text_eq
committed-AllGone _ old here a l _ here e =
    let f : 0x61 ∷ [] ≡ old = cc in
    let g : ◌≡◌ {A = Text} (0x62 ∷ []) (0x61 ∷ []) = e ∙ sym f in
    let h : ◌≡◌ {A = ℕ} 0x62 0x61 = cc in omega arith
committed-AllGone _ old here a l other (there h) e = elim h [ ]
committed-AllGone cf old (there h) a l other k e = elim h [ ]

committed_unique : (x : ℕ) → ids_at x committed.by_path ≤ 1
unfolding from_docs add_docs add_doc put_state put_inode state_of time_to_nanos relative_path
    text_eq
committed_unique x = ground arith

reconcile_once_example :
    touches 1 (reconcile read_all sum committed the_root (old_log ∷ [])).changes ≤ 1
unfolding get get_state from_docs add_docs add_doc put_state put_inode state_of time_to_nanos
    relative_path text_eq
reconcile_once_example =
    reconcile_once read_all sum committed the_root (old_log ∷ []) committed_unique committed-AllGone
      ((λ other h. elim h [ ]), tt) log_name log_state refl

reconcile-Covered_example :
    Covered read_all sum committed the_root
      (old_log ∷ [])
      (reconcile read_all sum committed the_root (old_log ∷ [])).changes
      old_log
      old_name
unfolding relative_path text_eq
reconcile-Covered_example =
    reconcile-Covered read_all sum committed the_root (old_log ∷ []) committed_unique
      committed-AllGone ((λ other h. elim h [ ]), tt) old_log here
