-- ===== src/Index/Table.antt =====
-- src/index/doc_table.rs: the sparse table of documents and its counters. Where the program panics
-- the model gives `none`.
pub mod Counted
pub mod Reached
use ripindex.Common.{
  ℕ, zero, suc, ◌+◌, ◌-◌, ◌%◌, ◌^◌, Bool, true, false, Option, none, some, List, [], ◌∷◌, ◌++◌,
  length, get_elem?, set, replicate, ltb, if◌then◌else◌,
}
use ripindex.Format.{ℤ}
use ripindex.Crawl.{PathBuf, FileEntry}

pub data DocStatus : Type 0 where
  indexed skipped binary too_large : DocStatus

unfoldable pub was_read : DocStatus → Bool
was_read indexed = true
was_read skipped = true
was_read binary = false
was_read too_large = false

unfoldable pub is_indexed : DocStatus → Bool
is_indexed indexed = true
is_indexed _ = false

pub record DocMeta : Type 0 where
  pub path : PathBuf
  pub inode : ℕ
  pub mtime : ℤ
  pub size : ℕ
  pub len : ℕ
  pub status : DocStatus
  pub content_hash : ℕ

unfoldable pub from_entry : FileEntry → DocMeta
from_entry e = record {
  path = e.path;
  inode = e.inode;
  mtime = e.mtime;
  size = e.size;
  len = 0;
  status = skipped;
  content_hash = 0;
}

abbrev pub Slots : Type 0
Slots = List (Option DocMeta)

pub record DocTable : Type 0 where
  pub slots : Slots
  pub live : ℕ
  pub indexed : ℕ
  pub total_len : ℕ

abbrev pub new : DocTable
new = record { slots = []; live = 0; indexed = 0; total_len = 0 }

-- `+=` and `-=` on `w` bits
unfoldable pub add : ℕ → ℕ → ℕ → ℕ
add w x y = (x + y) % 2 ^ w

unfoldable pub sub : ℕ → ℕ → ℕ → ℕ
sub w x y = (x + 2 ^ w - y) % 2 ^ w

-- `resize_with(i + 1, || None)`, where the table is shorter
unfoldable pub grow : Slots → ℕ → Slots
grow slots i =
    if ltb i (length slots) then slots else slots ++ replicate (suc i - length slots) none

-- The element at a place, where the place exists and is filled.
unfoldable pub filled : Option (Option DocMeta) → Option DocMeta
filled none = none
filled (some o) = o

unfoldable pub insert_at :
    DocTable → Slots → ℕ → DocMeta → Option (Option DocMeta) → Option DocTable
unfolding is_indexed add
insert_at t slots id meta none = none
insert_at t slots id meta (some (some m)) = none
insert_at t slots id meta (some none) = some (record {
  slots = set slots id (some meta);
  live = add 32 t.live 1;
  indexed = if is_indexed meta.status then add 32 t.indexed 1 else t.indexed;
  total_len = if is_indexed meta.status then add 64 t.total_len meta.len else t.total_len;
})

unfoldable pub insert : DocTable → ℕ → DocMeta → Option DocTable
unfolding grow insert_at
insert t id meta = let slots = grow t.slots id in insert_at t slots id meta (get_elem? slots id)

unfoldable pub mark_at : DocTable → ℕ → ℕ → Option DocMeta → Option DocTable
unfolding is_indexed add sub
mark_at t id len none = none
mark_at t id len (some m) = some (record {
  slots = set t.slots id (some (record m { status = DocStatus.indexed; len = len }));
  live = t.live;
  indexed = if is_indexed m.status then t.indexed else add 32 t.indexed 1;
  total_len = add 64 (if is_indexed m.status then sub 64 t.total_len m.len else t.total_len) len;
})

unfoldable pub mark_indexed : DocTable → ℕ → ℕ → Option DocTable
unfolding mark_at filled
mark_indexed t id len = mark_at t id len (filled (get_elem? t.slots id))

unfoldable pub status_at : DocTable → ℕ → DocStatus → Option DocMeta → Option DocTable
unfolding is_indexed sub
status_at t id status none = none
status_at t id status (some m) = some (record {
  slots =
      set t.slots id
        (some (record m { status = status; len = if is_indexed m.status then 0 else m.len }));
  live = t.live;
  indexed = if is_indexed m.status then sub 32 t.indexed 1 else t.indexed;
  total_len = if is_indexed m.status then sub 64 t.total_len m.len else t.total_len;
})

-- The caller never gives `indexed`, which a debug build refuses.
unfoldable pub set_status : DocTable → ℕ → DocStatus → Option DocTable
unfolding status_at filled
set_status t id status = status_at t id status (filled (get_elem? t.slots id))

unfoldable pub hash_at : DocTable → ℕ → ℕ → Option DocMeta → DocTable
hash_at t id hash none = t
hash_at t id hash (some m) = record t {
  slots = set t.slots id (some (record m { content_hash = hash }));
}

unfoldable pub set_hash : DocTable → ℕ → ℕ → DocTable
unfolding hash_at filled
set_hash t id hash = hash_at t id hash (filled (get_elem? t.slots id))

unfoldable pub remove_at : DocTable → ℕ → Option DocMeta → Option DocMeta × DocTable
unfolding is_indexed sub
remove_at t id none = (none, t)
remove_at t id (some m) = (
  some m,
  record {
    slots = set t.slots id none;
    live = sub 32 t.live 1;
    indexed = if is_indexed m.status then sub 32 t.indexed 1 else t.indexed;
    total_len = if is_indexed m.status then sub 64 t.total_len m.len else t.total_len;
  },
)

unfoldable pub remove : DocTable → ℕ → Option DocMeta × DocTable
unfolding remove_at filled
remove t id = remove_at t id (filled (get_elem? t.slots id))

unfoldable pub get : DocTable → ℕ → Option DocMeta
unfolding filled
get t id = filled (get_elem? t.slots id)

unfoldable pub id_bound : DocTable → ℕ
id_bound t = length t.slots % 2 ^ 32

unfoldable pub iter_from : ℕ → Slots → List (ℕ × DocMeta)
iter_from i [] = []
iter_from i (none ∷ slots) = iter_from (suc i) slots
iter_from i (some m ∷ slots) = (i, m) ∷ iter_from (suc i) slots

-- `len`, `is_empty` and `indexed_count` are the fields.
unfoldable pub iter : DocTable → List (ℕ × DocMeta)
unfolding iter_from
iter t = iter_from 0 t.slots
