-- ===== src/Store/State.antt =====
-- src/store/state.rs: the committed state by path and by inode, and the plan that a crawl gives. A
-- hash map is a list of pairs, in an order that nothing depends on; `read` is `std::fs::read` and
-- `hash_bytes` is xxh3-64, which the program takes from a library.
pub mod Reconcile
pub mod Settled
pub mod Accounts
pub mod Kept
pub mod Answered
pub mod Rotated
pub mod Effect
pub mod Marked
pub mod Step
pub mod Rounds
pub mod Once
pub mod Covered
use ripindex.Common.{
  ℕ, zero, suc, ◌+◌, ◌-◌, ◌*◌, ◌%◌, ◌^◌, Bool, true, false, not, ◌&&◌, ◌||◌, Option, none, some,
  List, [], ◌∷◌, ◌++◌, length, ltb, leb, ◌==◌, if◌then◌else◌,
}
use ripindex.Format.{Bytes, ℤ, pos, negsuc}
use ripindex.Crawl.{PathBuf, FileEntry, FileKind, CrawledFile, relative_path}
use ripindex.Index.Table.{DocStatus, was_read, DocMeta}
use ripindex.Query.Syntax.{Text, text_eq}

pub record FileState : Type 0 where
  pub doc_id : ℕ
  pub inode : ℕ
  pub mtime_nanos : ℤ
  pub size : ℕ
  pub content_hash : ℕ
  pub status : DocStatus

pub record StateIndex : Type 0 where
  pub by_path : List (Text × FileState)
  pub by_inode : List (ℕ × Text)

-- `t` is the time's signed distance from the epoch in nanoseconds; an `i64` saturates.
unfoldable pub time_to_nanos : ℤ → ℤ
time_to_nanos (pos n) = if ltb n (2 ^ 63) then pos n else pos (2 ^ 63 - 1)
time_to_nanos (negsuc n) = if ltb (suc n) (2 ^ 63) then negsuc n else negsuc (2 ^ 63 - 1)

unfoldable pub nanos_eq : ℤ → ℤ → Bool
nanos_eq (pos m) (pos n) = m == n
nanos_eq (negsuc m) (negsuc n) = m == n
nanos_eq _ _ = false

unfoldable pub get_state : List (Text × FileState) → Text → Option FileState
get_state [] path = none
get_state ((q, s) ∷ rest) path = if text_eq q path then some s else get_state rest path

unfoldable pub put_state : List (Text × FileState) → Text → FileState → List (Text × FileState)
put_state [] path state = (path, state) ∷ []
put_state ((q, s) ∷ rest) path state =
    if text_eq q path then (q, state) ∷ rest else (q, s) ∷ put_state rest path state

unfoldable pub get_inode : List (ℕ × Text) → ℕ → Option Text
get_inode [] inode = none
get_inode ((i, path) ∷ rest) inode = if i == inode then some path else get_inode rest inode

unfoldable pub put_inode : List (ℕ × Text) → ℕ → Text → List (ℕ × Text)
put_inode [] inode path = (inode, path) ∷ []
put_inode ((i, q) ∷ rest) inode path =
    if i == inode then (i, path) ∷ rest else (i, q) ∷ put_inode rest inode path

unfoldable pub state_of : ℕ → DocMeta → FileState
unfolding time_to_nanos
state_of id m = record {
  doc_id = id;
  inode = m.inode;
  mtime_nanos = time_to_nanos m.mtime;
  size = m.size;
  content_hash = m.content_hash;
  status = m.status;
}

unfoldable pub add_doc : PathBuf → StateIndex → ℕ × DocMeta → StateIndex
unfolding relative_path put_inode put_state state_of
add_doc root st (id, m) =
    let rel = relative_path root m.path in
    record {
      by_path = put_state st.by_path rel (state_of id m);
      by_inode = if m.inode == 0 then st.by_inode else put_inode st.by_inode m.inode rel;
    }

unfoldable pub add_docs : PathBuf → StateIndex → List (ℕ × DocMeta) → StateIndex
unfolding add_doc
add_docs root st [] = st
add_docs root st (d ∷ docs) = add_docs root (add_doc root st d) docs

unfoldable pub from_docs : PathBuf → List (ℕ × DocMeta) → StateIndex
unfolding add_docs
from_docs root docs = add_docs root (record { by_path = []; by_inode = [] }) docs

unfoldable pub get : StateIndex → Text → Option FileState
unfolding get_state
get st rel_path = get_state st.by_path rel_path

pub data Change : Type 0 where
  delete : ℕ → Change
  patch : ℕ → ℕ → ℤ → ℕ → Text → Change
  reindex : Text → FileKind → ℕ → ℤ → ℕ → Option Bytes → Change

pub record Plan : Type 0 where
  pub changes : List Change
  pub files_examined : ℕ
  pub bytes_read : ℕ

unfoldable pub deletes : List Change → ℕ
deletes [] = 0
deletes (delete id ∷ changes) = suc (deletes changes)
deletes (_ ∷ changes) = deletes changes

unfoldable pub patches : List Change → ℕ
patches [] = 0
patches (patch id inode mtime size path ∷ changes) = suc (patches changes)
patches (_ ∷ changes) = patches changes

unfoldable pub reindexes : List Change → ℕ
reindexes [] = 0
reindexes (reindex path kind inode mtime size bytes ∷ changes) = suc (reindexes changes)
reindexes (_ ∷ changes) = reindexes changes

-- The variables of the loop in `reconcile`.
pub record Progress : Type 0 where
  pub plan : Plan
  pub seen : List Text
  pub consumed_old : List Text

abbrev pub start : Progress
start = record {
  plan = record { changes = []; files_examined = 0; bytes_read = 0 };
  seen = [];
  consumed_old = [];
}

unfoldable pub has : List Text → Text → Bool
has [] path = false
has (q ∷ qs) path = text_eq q path || has qs path

unfoldable pub see : Text → Progress → Progress
see rel p = record p { seen = rel ∷ p.seen }

unfoldable pub consume : Text → Progress → Progress
consume old_path p = record p { consumed_old = old_path ∷ p.consumed_old }

unfoldable pub push : Change → Progress → Progress
push c p = record p { plan = record (p.plan) { changes = p.plan.changes ++ c ∷ [] } }

unfoldable pub examine : Progress → Progress
examine p = record p {
  plan = record (p.plan) { files_examined = (p.plan.files_examined + 1) % 2 ^ 64 };
}

unfoldable pub count_read : ℕ → Progress → Progress
count_read n p = record p {
  plan = record (p.plan) { bytes_read = (p.plan.bytes_read + n) % 2 ^ 64 };
}

unfoldable pub is_text : FileKind → Bool
is_text FileKind.text = true
is_text _ = false
