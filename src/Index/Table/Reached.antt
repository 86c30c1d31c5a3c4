-- ===== src/Index/Table/Reached.antt =====
-- src/index/doc_table.rs: tables reached by the operations.
use ripindex.Common.{
  arith, ℕ, zero, suc, ◌+◌, ◌-◌, ◌^◌, ◌≤◌, ◌<◌, ◌≡◌, refl, sym, ◌∙◌, Bool, true, false, Option,
  none, some, [], ◌∷◌, length, get_elem?, replicate, ltb, if◌then◌else◌, All, length-set,
  All-append, length-append, length-replicate, Bool-cases, inl, inr,
}
use mathlib.Core.Path.{subst}
use ripindex.Index.Table.{
  DocStatus, DocMeta, is_indexed, Slots, DocTable, new, grow, filled, insert_at, insert, mark_at,
  mark_indexed, status_at, set_status, hash_at, set_hash, remove_at, remove,
}
use ripindex.Index.Table.Counted.{
  one, indexed_one, indexed_len, total-holes, one_le, indexed_one_le, IsSmall, IsCounted, All-set,
  keep, count_up, count_down, len_up, len_down, len_both,
}

abbrev Ensures : (DocTable → Type 0) → Option DocTable → Type 0
Ensures P none = Unit
Ensures P (some u) = P u

Ensures-some :
    (P : DocTable → Type 0) {o : Option DocTable} {u : DocTable} → o ≡ some u → Ensures P o → P u
Ensures-some P e h = subst (Ensures P) e h

grow-IsCounted :
    (t : DocTable) (id : ℕ)
    → id + 1 < 2 ^ 32
    → IsCounted t
    → IsCounted (record t { slots = grow t.slots id })
unfolding grow
grow-IsCounted t id k c = elim (Bool-cases (ltb id (length t.slots))) [
  | inl e ↦ rw e c
  | inr e ↦ rw e (
      (
        omega (
          arith,
          length-append t.slots (replicate n none),
          length-replicate {A = Option DocMeta} n none,
          ltb_lem e,
        ),
        All-append IsSmall t.slots (replicate n none) c.1 (holes n),
        c.2 ∙ sym (total-holes one t.slots n),
        c.3 ∙ sym (total-holes indexed_one t.slots n),
        c.4 ∙ sym (total-holes indexed_len t.slots n),
      ))
]
  where
    n : ℕ
    n = suc id - length t.slots

    holes : (n : ℕ) → All IsSmall (replicate n none)
    holes zero = tt
    holes (suc n) = (omega arith, holes n)

    ltb_lem : ltb id (length t.slots) ≡ false → length t.slots ≤ id
    ltb_lem e = ground arith

insert_at-IsCounted :
    (t : DocTable) (slots : Slots) (id : ℕ) (meta : DocMeta)
    → IsSmall (some meta)
    → IsCounted (record t { slots = slots })
    → (o : Option (Option DocMeta)) → get_elem? slots id ≡ o
    → Ensures IsCounted (insert_at t slots id meta o)
unfolding insert_at
insert_at-IsCounted t slots id meta s c none at = tt
insert_at-IsCounted t slots id meta s c (some (some m)) at = tt
insert_at-IsCounted t slots id meta s c (some none) at =
    elim (Bool-cases (is_indexed meta.status)) [
      | inl e ↦ rw e (
        omega (arith, c.0, length-set slots id (some meta)),
        All-set IsSmall slots id (some meta) c.1 s,
        count_up slots id none (some meta) at one one_le c.0 c.2 refl refl,
        count_up slots id none (some meta) at indexed_one indexed_one_le c.0 c.3 refl (rw e refl),
        len_up slots id none (some meta) at c.1 c.0 c.4 s meta.len refl (rw e refl),
      )
      | inr e ↦ rw e (
        omega (arith, c.0, length-set slots id (some meta)),
        All-set IsSmall slots id (some meta) c.1 s,
        count_up slots id none (some meta) at one one_le c.0 c.2 refl refl,
        keep slots id none (some meta) at indexed_one c.3 (rw e refl),
        keep slots id none (some meta) at indexed_len c.4 (rw e refl),
      )
    ]

mark_at-IsCounted :
    (t : DocTable) (id len : ℕ)
    → len < 2 ^ 32
    → IsCounted t
    → (o : Option (Option DocMeta)) → get_elem? t.slots id ≡ o
    → Ensures IsCounted (mark_at t id len (filled o))
unfolding mark_at filled is_indexed
mark_at-IsCounted t id len s c none at = tt
mark_at-IsCounted t id len s c (some none) at = tt
mark_at-IsCounted t id len s c (some (some m)) at = elim (Bool-cases (is_indexed m.status)) [
  | inl e ↦ rw e (
    omega (arith, c.0, length-set t.slots id p),
    All-set IsSmall t.slots id p c.1 s,
    keep t.slots id (some m) p at one c.2 refl,
    keep t.slots id (some m) p at indexed_one c.3 (rw e refl),
    len_both t.slots id (some m) p at c.1 c.0 c.4 s m.len len (rw e refl) refl,
  )
  | inr e ↦ rw e (
    omega (arith, c.0, length-set t.slots id p),
    All-set IsSmall t.slots id p c.1 s,
    keep t.slots id (some m) p at one c.2 refl,
    count_up t.slots id (some m) p at indexed_one indexed_one_le c.0 c.3 (rw e refl) refl,
    len_up t.slots id (some m) p at c.1 c.0 c.4 s len (rw e refl) refl,
  )
]
  where
    p : Option DocMeta
    p = some (record m { status = DocStatus.indexed; len = len })

status_at-IsCounted :
    (t : DocTable) (id : ℕ) (status : DocStatus)
    → is_indexed status ≡ false
    → IsCounted t
    → (o : Option (Option DocMeta)) → get_elem? t.slots id ≡ o
    → Ensures IsCounted (status_at t id status (filled o))
unfolding status_at filled
status_at-IsCounted t id status s c none at = tt
status_at-IsCounted t id status s c (some none) at = tt
status_at-IsCounted t id status s c (some (some m)) at = elim (Bool-cases (is_indexed m.status)) [
  | inl e ↦ rw e (
    omega (arith, c.0, length-set t.slots id (p 0)),
    All-set IsSmall t.slots id (p 0) c.1 (rw s (omega arith)),
    keep t.slots id (some m) (p 0) at one c.2 refl,
    count_down t.slots id (some m) (p 0) at indexed_one indexed_one_le c.0 c.3 (rw e refl)
        (rw s refl),
    len_down t.slots id (some m) (p 0) at c.1 c.0 c.4 m.len (rw e refl) (rw s refl),
  )
  | inr e ↦ rw e (
    omega (arith, c.0, length-set t.slots id (p m.len)),
    All-set IsSmall t.slots id (p m.len) c.1 (rw s (omega arith)),
    keep t.slots id (some m) (p m.len) at one c.2 refl,
    keep t.slots id (some m) (p m.len) at indexed_one c.3 (rw (e, s) refl),
    keep t.slots id (some m) (p m.len) at indexed_len c.4 (rw (e, s) refl),
  )
]
  where
    p : ℕ → Option DocMeta
    p n = some (record m { status = status; len = n })

hash_at-IsCounted :
    (t : DocTable) (id hash : ℕ)
    → IsCounted t
    → (o : Option (Option DocMeta)) → get_elem? t.slots id ≡ o
    → IsCounted (hash_at t id hash (filled o))
unfolding hash_at filled
hash_at-IsCounted t id hash c none at = c
hash_at-IsCounted t id hash c (some none) at = c
hash_at-IsCounted t id hash c (some (some m)) at = (
  omega (arith, c.0, length-set t.slots id p),
  All-set IsSmall t.slots id p c.1 (place t.slots id c.1 at),
  keep t.slots id (some m) p at one c.2 refl,
  keep t.slots id (some m) p at indexed_one c.3 refl,
  keep t.slots id (some m) p at indexed_len c.4 refl,
)
  where
    p : Option DocMeta
    p = some (record m { content_hash = hash })

    place :
        (slots : Slots) (i : ℕ)
        → All IsSmall slots
        → get_elem? slots i ≡ some (some m)
        → IsSmall (some m)
    place [] i a e = absurd cc
    place (x ∷ slots) zero a e = let f : x ≡ some m = cc in subst IsSmall f a.0
    place (x ∷ slots) (suc i) a e = place slots i a.1 e

remove_at-IsCounted :
    (t : DocTable) (id : ℕ)
    → IsCounted t
    → (o : Option (Option DocMeta)) → get_elem? t.slots id ≡ o
    → IsCounted ((remove_at t id (filled o)).1)
unfolding remove_at filled
remove_at-IsCounted t id c none at = c
remove_at-IsCounted t id c (some none) at = c
remove_at-IsCounted t id c (some (some m)) at = elim (Bool-cases (is_indexed m.status)) [
  | inl e ↦ rw e (
    omega (arith, c.0, length-set t.slots id none),
    All-set IsSmall t.slots id none c.1 (omega arith),
    count_down t.slots id (some m) none at one one_le c.0 c.2 refl refl,
    count_down t.slots id (some m) none at indexed_one indexed_one_le c.0 c.3 (rw e refl) refl,
    len_down t.slots id (some m) none at c.1 c.0 c.4 m.len (rw e refl) refl,
  )
  | inr e ↦ rw e (
    omega (arith, c.0, length-set t.slots id none),
    All-set IsSmall t.slots id none c.1 (omega arith),
    count_down t.slots id (some m) none at one one_le c.0 c.2 refl refl,
    keep t.slots id (some m) none at indexed_one c.3 (rw e refl),
    keep t.slots id (some m) none at indexed_len c.4 (rw e refl),
  )
]

-- The calls that change a table: ids below the largest one, lengths and statuses as the callers
-- give them.
pub data Step (t u : DocTable) : Type 0 where
  inserted :
      (id : ℕ) (meta : DocMeta)
      → id + 1 < 2 ^ 32
      → meta.len < 2 ^ 32
      → insert t id meta ≡ some u
      → Step t u
  marked : (id len : ℕ) → len < 2 ^ 32 → mark_indexed t id len ≡ some u → Step t u
  classed :
      (id : ℕ) (status : DocStatus)
      → is_indexed status ≡ false
      → set_status t id status ≡ some u
      → Step t u
  hashed : (id hash : ℕ) → set_hash t id hash ≡ u → Step t u
  removed : (id : ℕ) → (remove t id).1 ≡ u → Step t u

pub data Reach : DocTable → Type 0 where
  start : Reach new
  next : {t u : DocTable} → Reach t → Step t u → Reach u

Step-IsCounted : (t u : DocTable) → IsCounted t → Step t u → IsCounted u
unfolding insert mark_indexed set_status set_hash remove
Step-IsCounted t u c (inserted id meta k s e) = Ensures-some IsCounted e (
    insert_at-IsCounted t (grow t.slots id) id meta (small (is_indexed meta.status))
      (grow-IsCounted t id k c) (get_elem? (grow t.slots id) id) refl)
  where
    small : (b : Bool) → (if b then meta.len else 0) < 2 ^ 32
    small true = s
    small false = omega arith
Step-IsCounted t u c (marked id len s e) =
    Ensures-some IsCounted e (mark_at-IsCounted t id len s c (get_elem? t.slots id) refl)
Step-IsCounted t u c (classed id status s e) =
    Ensures-some IsCounted e (status_at-IsCounted t id status s c (get_elem? t.slots id) refl)
Step-IsCounted t u c (hashed id hash e) =
    subst IsCounted e (hash_at-IsCounted t id hash c (get_elem? t.slots id) refl)
Step-IsCounted t u c (removed id e) =
    subst IsCounted e (remove_at-IsCounted t id c (get_elem? t.slots id) refl)

-- In every table that the operations reach from the empty one, the counters are the number of its
-- documents, of the indexed ones, and the sum of their lengths: none has wrapped around.
pub Reach-IsCounted : (t : DocTable) → Reach t → IsCounted t
Reach-IsCounted _ start = (omega arith, tt, refl, refl, refl)
Reach-IsCounted _ (next {t} {u} r s) = Step-IsCounted t u (Reach-IsCounted t r) s
