-- ===== src/Format/Doc/Total.antt =====
-- src/format/doc.rs, `record` on a parsed table: no read is out of range.
use ripindex.Common.{
  ℕ, zero, suc, ◌+◌, ◌≤◌, ◌<◌, ◌≡◌, refl, sym, ap, ◌∙◌, false, none, some, List, [], ◌∷◌, length,
  get_elem?, leb, arith, if◌then◌else◌,
}
use mathlib.Core.Path.{subst}
use ripindex.Format.{Bytes, ok, to_option, slice, read_u32_le, read_u64_le, read_i64_le, to_usize}
use ripindex.Format.Binds.{>>=-eq-ok}
use ripindex.Format.Slice.{Fits, slice-eq_ok}
use ripindex.Format.Envelope
use ripindex.Format.Doc.{
  DocRecord, DocTableView, record_at, parse_body, parse, read_fields, read_record, with_status,
  record_of,
}

get_elem?-in_range {ℓ} :
    {A : Type ℓ} (xs : List A) (i : ℕ) → i < length xs → (x : A) × (get_elem? xs i ≡ some x)
get_elem?-in_range [] i h = absurd (omega arith)
get_elem?-in_range (x ∷ xs) zero h = (x, refl)
get_elem?-in_range (x ∷ xs) (suc i) h = get_elem?-in_range xs i (omega (arith, h))

parse_body-room :
    (bytes : Bytes) (env : Envelope.Envelope) (body : Bytes) (v : DocTableView)
    → parse_body bytes env body ≡ ok v
    → (v.bytes ≡ bytes) × (record_at v.num_docs ≤ length bytes)
unfolding parse_body to_usize slice
parse_body-room bytes env body v e = ground arith

module _ (b : Bytes) (at : ℕ) (fits : Fits b) (room : at + 48 ≤ length b) where
  read_fields-total : (status : ℕ) → (r : DocRecord) × (read_fields b at status ≡ ok r)
  unfolding read_fields read_u32_le read_u64_le read_i64_le
  read_fields-total status =
      rw
        (
          slice-eq_ok b at 8 fits (omega arith),
          slice-eq_ok b (at + 8) 8 fits (omega arith),
          slice-eq_ok b (at + 16) 8 fits (omega arith),
          slice-eq_ok b (at + 24) 4 fits (omega arith),
          slice-eq_ok b (at + 28) 4 fits (omega arith),
          slice-eq_ok b (at + 32) 4 fits (omega arith),
          slice-eq_ok b (at + 40) 8 fits (omega arith),
        )
        (_, refl)

  read_record-total : (r : DocRecord) × (read_record b at ≡ some r)
  unfolding read_record with_status
  read_record-total =
      let (status, found) = get_elem?-in_range b (at + 36) (omega (arith, room)) in
      let (r, read) = read_fields-total status in
      (r, ap (with_status b at) found ∙ ap to_option read)

record_of-within :
    (v : DocTableView) (i : ℕ)
    → Fits v.bytes
    → i < v.num_docs
    → record_at v.num_docs ≤ length v.bytes
    → (r : DocRecord) × (record_of v i ≡ some r)
unfolding record_of
record_of-within v i fits lt room =
    let (r, e) = read_record-total v.bytes (record_at i) fits (omega (arith, room, lt)) in
    (r, ap (λ b. if b then none else read_record v.bytes (record_at i)) (present lt) ∙ e)
  where
    present : {i n : ℕ} → i < n → leb n i ≡ false
    present lt = ground (arith, lt)

-- In a table that `parse` accepts, from bytes that fit in memory, every document up to `num_docs` has
-- a record: no read of `record` is out of range, that of the status byte neither.
record_of-parsed :
    (bytes : Bytes) (v : DocTableView)
    → Fits bytes
    → parse bytes ≡ ok v
    → (i : ℕ) → i < v.num_docs
    → (r : DocRecord) × (record_of v i ≡ some r)
unfolding parse
record_of-parsed bytes v fits e i lt =
    let (env, _, f) =
      >>=-eq-ok (Envelope.parse Envelope.doc bytes)
        (λ env. parse_body bytes env (Envelope.body_of bytes env)) e in
    let (same, room) = parse_body-room bytes env (Envelope.body_of bytes env) v f in
    record_of-within v i (subst Fits (sym same) fits) lt
      (subst (λ b. record_at v.num_docs ≤ length b) (sym same) room)
