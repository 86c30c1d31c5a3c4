-- ===== src/Index/Table/Counted.antt =====
-- src/index/doc_table.rs: the counters of the table of documents, and what each place adds to them.
use ripindex.Common.{
  arith, ℕ, zero, suc, ◌+◌, ◌-◌, ◌*◌, ◌^◌, ◌≤◌, ◌<◌, ◌≡◌, refl, ap, Option, none, some, [], ◌∷◌,
  ◌++◌, length, get_elem?, set, replicate, if◌then◌else◌, All, length-set, Bool-cases, inl, inr,
}
use ripindex.Index.Table.{DocMeta, is_indexed, Slots, DocTable, add, sub}

pub add_32 : (x : ℕ) → x + 1 < 2 ^ 32 → add 32 x 1 ≡ x + 1
unfolding add
add_32 x h = omega arith

pub add_64 : (x y : ℕ) → x + y < 2 ^ 64 → add 64 x y ≡ x + y
unfolding add
add_64 x y h = omega arith

pub sub_32 : (x : ℕ) → 1 ≤ x → x < 2 ^ 32 → sub 32 x 1 ≡ x - 1
unfolding sub
sub_32 x h k = omega arith

pub sub_64 : (x y : ℕ) → y ≤ x → x < 2 ^ 64 → sub 64 x y ≡ x - y
unfolding sub
sub_64 x y h k = omega arith

-- What one document adds to the three counters.
abbrev pub one : DocMeta → ℕ
one m = 1

abbrev pub indexed_one : DocMeta → ℕ
indexed_one m = if is_indexed m.status then 1 else 0

abbrev pub indexed_len : DocMeta → ℕ
indexed_len m = if is_indexed m.status then m.len else 0

abbrev pub weight : (DocMeta → ℕ) → Option DocMeta → ℕ
weight f none = 0
weight f (some m) = f m

abbrev pub total : (DocMeta → ℕ) → Slots → ℕ
total f [] = 0
total f (o ∷ slots) = weight f o + total f slots

-- The place's old share goes, the new one comes.
pub total-set :
    (f : DocMeta → ℕ) (slots : Slots) (i : ℕ) (o p : Option DocMeta)
    → get_elem? slots i ≡ some o
    → total f (set slots i p) + weight f o ≡ total f slots + weight f p
total-set f [] i o p h = absurd cc
total-set f (x ∷ slots) zero o p h = let e : x ≡ o = cc in rw e (omega arith)
total-set f (x ∷ slots) (suc i) o p h = omega (arith, total-set f slots i o p h)

pub total-holes :
    (f : DocMeta → ℕ) (slots : Slots) (n : ℕ) → total f (slots ++ replicate n none) ≡ total f slots
total-holes f [] zero = refl
total-holes f [] (suc n) = omega (arith, total-holes f [] n)
total-holes f (x ∷ slots) n = ap (λ k. weight f x + k) (total-holes f slots n)

pub total_le :
    (f : DocMeta → ℕ)
    → ((o : Option DocMeta) → weight f o ≤ 1)
    → (slots : Slots) → total f slots ≤ length slots
total_le f h [] = omega arith
total_le f h (x ∷ slots) = omega (arith, h x, total_le f h slots)

pub All-set {κ} :
    (P : Option DocMeta → Type κ) (slots : Slots) (i : ℕ) (p : Option DocMeta)
    → All P slots
    → P p
    → All P (set slots i p)
All-set P [] i p h k = tt
All-set P (x ∷ slots) zero p h k = (k, h.1)
All-set P (x ∷ slots) (suc i) p h k = (h.0, All-set P slots i p h.1 k)

-- A length is a 32-bit number.
abbrev pub IsSmall : Option DocMeta → Type 0
IsSmall o = weight indexed_len o < 2 ^ 32

-- The ids are below the largest one, and the counters count the documents, the indexed ones and
-- their lengths.
abbrev pub IsCounted : DocTable → Type 0
IsCounted t =
    (length t.slots < 2 ^ 32)
    × All IsSmall t.slots
    × (t.live ≡ total one t.slots)
    × (t.indexed ≡ total indexed_one t.slots)
    × (t.total_len ≡ total indexed_len t.slots)

pub one_le : (o : Option DocMeta) → weight one o ≤ 1
one_le none = omega arith
one_le (some m) = omega arith

pub indexed_one_le : (o : Option DocMeta) → weight indexed_one o ≤ 1
indexed_one_le none = omega arith
indexed_one_le (some m) = elim (Bool-cases (is_indexed m.status)) [
  | inl e ↦ rw e (omega arith)
  | inr e ↦ rw e (omega arith)
]

pub total_len_le :
    (slots : Slots) → All IsSmall slots → total indexed_len slots ≤ length slots * 4294967295
total_len_le [] h = omega arith
total_len_le (x ∷ slots) h = omega (arith, h.0, total_len_le slots h.1)

-- One place changes.
module _ (slots : Slots) (i : ℕ) (o p : Option DocMeta) (at : get_elem? slots i ≡ some o) where
  pub keep :
      (f : DocMeta → ℕ) {x : ℕ}
      → x ≡ total f slots
      → weight f o ≡ weight f p
      → x ≡ total f (set slots i p)
  keep f h e = omega (arith, total-set f slots i o p at)

  bound :
      (f : DocMeta → ℕ)
      → ((q : Option DocMeta) → weight f q ≤ 1)
      → length slots < 2 ^ 32
      → total f (set slots i p) < 2 ^ 32
  bound f h k = omega (arith, total_le f h (set slots i p), length-set slots i p)

  pub count_up :
      (f : DocMeta → ℕ)
      → ((q : Option DocMeta) → weight f q ≤ 1)
      → {x : ℕ} → length slots < 2 ^ 32
      → x ≡ total f slots
      → weight f o ≡ 0
      → weight f p ≡ 1
      → add 32 x 1 ≡ total f (set slots i p)
  count_up f b {x} l h e k =
      rw (add_32 x (omega (arith, total-set f slots i o p at, bound f b l)))
        (omega (arith, total-set f slots i o p at))

  pub count_down :
      (f : DocMeta → ℕ)
      → ((q : Option DocMeta) → weight f q ≤ 1)
      → {x : ℕ} → length slots < 2 ^ 32
      → x ≡ total f slots
      → weight f o ≡ 1
      → weight f p ≡ 0
      → sub 32 x 1 ≡ total f (set slots i p)
  count_down f b {x} l h e k =
      rw (sub_32 x (omega (arith, total-set f slots i o p at)) (omega (arith, total_le f b slots)))
        (omega (arith, total-set f slots i o p at))

  module _ (small : All IsSmall slots) (l : length slots < 2 ^ 32) {x : ℕ}
      (h : x ≡ total indexed_len slots) where
    pub len_down :
        (y : ℕ)
        → weight indexed_len o ≡ y
        → weight indexed_len p ≡ 0
        → sub 64 x y ≡ total indexed_len (set slots i p)
    len_down y e k =
        rw
          (sub_64 x y (omega (arith, total-set indexed_len slots i o p at))
            (omega (arith, total_len_le slots small)))
          (omega (arith, total-set indexed_len slots i o p at))

    module _ (fits : IsSmall p) where
      bound_len : total indexed_len (set slots i p) < 2 ^ 64
      bound_len = omega (
        arith,
        total_len_le (set slots i p) (All-set IsSmall slots i p small fits),
        length-set slots i p,
      )

      pub len_up :
          (y : ℕ)
          → weight indexed_len o ≡ 0
          → weight indexed_len p ≡ y
          → add 64 x y ≡ total indexed_len (set slots i p)
      len_up y e k =
          rw (add_64 x y (omega (arith, total-set indexed_len slots i o p at, bound_len)))
            (omega (arith, total-set indexed_len slots i o p at))

      pub len_both :
          (y z : ℕ)
          → weight indexed_len o ≡ y
          → weight indexed_len p ≡ z
          → add 64 (sub 64 x y) z ≡ total indexed_len (set slots i p)
      len_both y z e k =
          rw
            (sub_64 x y (omega (arith, total-set indexed_len slots i o none at))
              (omega (arith, total_len_le slots small)))
            (rw
              (add_64 (x - y) z (
                omega (
                  arith,
                  total-set indexed_len slots i o p at,
                  total-set indexed_len slots i o none at,
                  bound_len,
                )))
              (omega (
                arith,
                total-set indexed_len slots i o p at,
                total-set indexed_len slots i o none at,
              )))
