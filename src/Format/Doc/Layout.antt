-- ===== src/Format/Doc/Layout.antt =====
-- src/format/doc.rs, `encode`: what the loop writes for a list of documents.
use ripindex.Common.{
  ℕ, ◌+◌, ◌*◌, ◌%◌, ◌^◌, ◌≤◌, ◌<◌, ◌≡◌, refl, ◌∙◌, ap, Bool, true, false, not, ◌&&◌, List, [], ◌∷◌,
  ◌++◌, length, arith, All, append_assoc, append-nil, length-append, lt→ltb, ◌==◌, if◌then◌else◌,
}
use ripindex.Format.{Bytes, ok, to_le_bytes}
use ripindex.Format.Ints.{IsI64}
use ripindex.Format.Doc.{DocIn, is_indexed, encode_doc, Written, add_doc, encode_rounds}
use ripindex.Format.Doc.Check.{is_utf8}

-- Each field fits its width, a document that is not indexed has no length, and the path is a string.
pub record FieldsFit (d : DocIn) : Type 0 where
  pub inode : d.inode < 2 ^ 64
  pub nanos : IsI64 d.mtime_nanos
  pub size : d.size < 2 ^ 64
  pub len : d.len < 2 ^ 32
  pub hash : d.content_hash < 2 ^ 64
  pub no_len : is_indexed d.kind ≡ false → d.len ≡ 0
  pub text : is_utf8 d.path ≡ true

abbrev pub heap : List DocIn → Bytes
heap [] = []
heap (d ∷ ds) = d.path ++ heap ds

-- The records, whose paths stand in the heap from `off` on.
abbrev pub records_of : ℕ → List DocIn → Bytes
records_of off [] = []
records_of off (d ∷ ds) = encode_doc off d ++ records_of (off + length d.path) ds

abbrev pub count_indexed : List DocIn → ℕ
count_indexed [] = 0
count_indexed (d ∷ ds) = (if is_indexed d.kind then 1 else 0) + count_indexed ds

abbrev pub sum_len : List DocIn → ℕ
sum_len [] = 0
sum_len (d ∷ ds) = (if is_indexed d.kind then d.len else 0) + sum_len ds

-- A table that the format can hold.
pub record IsTable (docs : List DocIn) : Type 0 where
  pub fits : All FieldsFit docs
  pub count : length docs < 2 ^ 32
  pub paths : length (heap docs) < 2 ^ 32

pub length-encode_doc :
    (off : ℕ) (d : DocIn) (rest : Bytes) → length (encode_doc off d ++ rest) ≡ 48 + length rest
unfolding encode_doc to_le_bytes
length-encode_doc off d rest = omega arith

pub length-records_of : (off : ℕ) (ds : List DocIn) → length (records_of off ds) ≡ 48 * length ds
length-records_of off [] = refl
length-records_of off (d ∷ ds) = omega (
  arith,
  length-encode_doc off d (records_of (off + length d.path) ds),
  length-records_of (off + length d.path) ds,
)

pub count_indexed-le : (ds : List DocIn) → count_indexed ds ≤ length ds
count_indexed-le [] = omega arith
count_indexed-le (d ∷ ds) = ground (arith, count_indexed-le ds)

pub sum_len-le : (ds : List DocIn) → All FieldsFit ds → sum_len ds ≤ 2 ^ 32 * length ds
sum_len-le [] h = omega arith
sum_len-le (d ∷ ds) (h, hs) = ground (arith, sum_len-le ds hs, h.len)

-- The loop's state after the documents.
abbrev pub after : Written → List DocIn → Written
after w ds = record {
  records = w.records ++ records_of (length w.paths) ds;
  paths = w.paths ++ heap ds;
  num_indexed = w.num_indexed + count_indexed ds;
  total_len = w.total_len + sum_len ds;
}

-- One round keeps the counters below their widths.
pub num_step :
    (b : Bool) (n : ℕ)
    → n + 1 < 2 ^ 32
    → (if b then (n + 1) % 2 ^ 32 else n) ≡ n + (if b then 1 else 0)
num_step true n h = omega arith
num_step false n h = omega arith

pub len_step :
    (b : Bool) (t l : ℕ)
    → t + l < 2 ^ 64
    → (if b then (t + l) % 2 ^ 64 else t) ≡ t + (if b then l else 0)
len_step true t l h = omega arith
len_step false t l h = omega arith

pub len_allowed : (b : Bool) (l : ℕ) → (b ≡ false → l ≡ 0) → not (not b && not (l == 0)) ≡ true
len_allowed true l h = refl
len_allowed false l h = ground (arith, h refl)

after-add_doc :
    (w : Written) (d : DocIn) (ds : List DocIn)
    → w.num_indexed + 1 < 2 ^ 32
    → w.total_len + d.len < 2 ^ 64
    → after (add_doc w d) ds ≡ after w (d ∷ ds)
unfolding add_doc
after-add_doc w d ds h k =
    let r =
      append_assoc w.records (encode_doc (length w.paths) d)
        (records_of (length w.paths + length d.path) ds) in
    let q = append_assoc w.paths d.path (heap ds) in
    rw
      (
        num_step (is_indexed d.kind) w.num_indexed h,
        len_step (is_indexed d.kind) w.total_len d.len k,
        length-append w.paths d.path,
        r,
        q,
      )
      (rw (add_assoc w.num_indexed _ (count_indexed ds), add_assoc w.total_len _ (sum_len ds)) refl)
  where
    add_assoc : (a b c : ℕ) → a + b + c ≡ a + (b + c)
    add_assoc a b c = omega arith

paths_grow : (w : Written) (d : DocIn) → length (add_doc w d).paths ≡ length w.paths + length d.path
unfolding add_doc
paths_grow w d = length-append w.paths d.path

num_grows :
    (w : Written) (d : DocIn)
    → w.num_indexed + 1 < 2 ^ 32
    → (add_doc w d).num_indexed ≤ w.num_indexed + 1
unfolding add_doc
num_grows w d h = rw (num_step (is_indexed d.kind) w.num_indexed h) (go (is_indexed d.kind))
  where
    go : (b : Bool) → w.num_indexed + (if b then 1 else 0) ≤ w.num_indexed + 1
    go true = omega arith
    go false = omega arith

total_grows :
    (w : Written) (d : DocIn)
    → w.total_len + d.len < 2 ^ 64
    → (add_doc w d).total_len ≤ w.total_len + d.len
unfolding add_doc
total_grows w d h = rw (len_step (is_indexed d.kind) w.total_len d.len h) (go (is_indexed d.kind))
  where
    go : (b : Bool) → w.total_len + (if b then d.len else 0) ≤ w.total_len + d.len
    go true = omega arith
    go false = omega arith

-- The loop accepts the documents of a table, and its counters do not overflow.
pub encode_rounds-after :
    (w : Written) (ds : List DocIn)
    → All FieldsFit ds
    → length w.paths + length (heap ds) < 2 ^ 32
    → w.num_indexed + length ds < 2 ^ 32
    → w.total_len + 2 ^ 32 * length ds < 2 ^ 64
    → encode_rounds ds w ≡ ok (after w ds)
unfolding encode_rounds
encode_rounds-after w [] f hp hn ht =
    let zero_on : (n : ℕ) → n + 0 ≡ n = λ n. omega arith in
    rw (append-nil, append-nil, zero_on, zero_on) refl
encode_rounds-after w (d ∷ ds) (f, fs) hp hn ht =
    let room = length-append d.path (heap ds) in
    let n_small : w.num_indexed + 1 < 2 ^ 32 = omega arith in
    let t_small : w.total_len + d.len < 2 ^ 64 = omega (arith, f.len) in
    rw
      (
        lt→ltb (length d.path) (2 ^ 32) (omega arith),
        lt→ltb (length w.paths + length d.path) (2 ^ 32) (omega arith),
        len_allowed (is_indexed d.kind) d.len f.no_len,
      )
      (encode_rounds-after (add_doc w d) ds fs
          (omega (arith, room, paths_grow w d, length-append w.paths d.path))
          (omega (arith, num_grows w d n_small)) (omega (arith, total_grows w d t_small, f.len))
        ∙ ap ok (after-add_doc w d ds n_small t_small))
