-- ===== src/Index/Memory/Store.antt =====
-- src/index/memory.rs, `MemTermStore::merge_shard`: a term's list after a shard is merged in.
use ripindex.Common.{
  ◌≡◌, refl, sym, ◌∙◌, Bool, true, false, Option, none, some, List, [], ◌∷◌, ◌++◌, if◌then◌else◌,
  Bool-cases, inl, inr,
}
use ripindex.Index.Postings.{Posting}
use ripindex.Query.Syntax.{Text, text_eq, text_eq_sound, text_eq_refl}
use ripindex.Index.Memory.{append, MemTermStore, get, merge_entry, merge_entries, merge_shard}

-- No term stands twice, as in a `HashMap`.
abbrev pub Unique : MemTermStore → Type 0
Unique [] = Unit
Unique ((t, l) ∷ m) = (get m t ≡ none) × Unique m

-- The list of a term that a store and a shard may each have.
abbrev pub joined : Option (List Posting) → Option (List Posting) → Option (List Posting)
joined none there = there
joined (some l) none = some l
joined (some l) (some m) = some (l ++ m)

joined-none : (o : Option (List Posting)) → joined o none ≡ o
joined-none none = refl
joined-none (some l) = refl

get-merge_entry :
    (m : MemTermStore) (u t : Text) (l : List Posting)
    → get (merge_entry m u l) t ≡ (if text_eq u t then joined (get m t) (some l) else get m t)
unfolding get merge_entry
get-merge_entry [] u t l = refl
get-merge_entry ((k, x) ∷ m) u t l = elim (Bool-cases (text_eq k u)) [
  | inl same ↦ rw same (rw (text_eq_sound k u same) (at_key (text_eq u t)))
  | inr other ↦
      rw other (past other (get-merge_entry m u t l) (text_eq k t) refl (text_eq u t) refl)
]
  where
    clash : {A : Type 0} → false ≡ true → A
    clash q = cc

    at_key :
        (b : Bool)
        → (if b then some (append x l) else get m t) ≡ (
            if b
            then joined (if b then some x else get m t) (some l)
            else (if b then some x else get m t))
    at_key true = refl
    at_key false = refl

    past :
        text_eq k u ≡ false
        → get (merge_entry m u l) t ≡ (if text_eq u t then joined (get m t) (some l) else get m t)
        → (b : Bool) → text_eq k t ≡ b
        → (c : Bool) → text_eq u t ≡ c
        → (if b then some x else get (merge_entry m u l) t) ≡ (
            if c
            then joined (if b then some x else get m t) (some l)
            else (if b then some x else get m t))
    past other rest true e true f =
        clash (sym other ∙ rw (text_eq_sound k t e, text_eq_sound u t f) (text_eq_refl t))
    past other rest true e false f = refl
    past other rest false e c f = rw (← f) rest

get-merge_entries :
    (terms shard : MemTermStore) (t : Text)
    → Unique shard
    → get (merge_entries terms shard) t ≡ joined (get terms t) (get shard t)
unfolding get merge_entries
get-merge_entries terms [] t h = sym (joined-none (get terms t))
get-merge_entries terms ((u, l) ∷ shard) t h =
    get-merge_entries (merge_entry terms u l) shard t h.1
    ∙ rw (get-merge_entry terms u t l) (step (text_eq u t) refl)
  where
    absent : text_eq u t ≡ true → get shard t ≡ none
    absent e = rw (← text_eq_sound u t e) h.0

    step :
        (b : Bool)
        → text_eq u t ≡ b
        → joined (if b then joined (get terms t) (some l) else get terms t) (get shard t)
          ≡ joined (get terms t) (if b then some l else get shard t)
    step false e = refl
    step true e = rw (absent e) (joined-none (joined (get terms t) (some l)))

-- After a shard in which no term stands twice is merged into a store, a term has the shard's list
-- appended to the store's, where each may be absent; an empty store takes the shard as it is.
pub merge_shard_lem :
    (terms shard : MemTermStore) (t : Text)
    → Unique shard
    → get (merge_shard terms shard) t ≡ joined (get terms t) (get shard t)
unfolding merge_shard get
merge_shard_lem [] shard t h = refl
merge_shard_lem (e ∷ terms) shard t h = get-merge_entries (e ∷ terms) shard t h
