-- ===== src/Format/Doc/Verdict.antt =====
-- src/format/doc.rs, `verify`: what the full check passes.
use ripindex.Common.{
  ℕ, zero, suc, ◌+◌, ◌%◌, ◌^◌, ◌≤◌, ◌<◌, ◌≡◌, ◌≢◌, ◌↔◌, refl, sym, ap, ◌∙◌, Bool, true, false, not,
  ◌&&◌, Option, none, some, List, [], ◌∷◌, take, drop, arith, leb, ◌==◌, if◌then◌else◌, Bool-cases,
  inl, inr, leb→le, le→leb, eq→==, ==_iff,
}
use mathlib.Core.Path.{subst}
use ripindex.Format.{
  Bytes, Result, FormatError, ok, ◌>>=◌, ◌>>◌, require, corrupt, bad_status, nonindexed_with_len,
  reserved_bytes_set,
}
use ripindex.Format.Binds.{>>=-eq-ok, >>-eq-ok, ok-injective}
use ripindex.Format.Checksum.{Crc32}
use ripindex.Format.Envelope
use ripindex.Format.Envelope.{bytes_eq}
use ripindex.Format.Envelope.RoundTrip.{bytes_eq_refl}
use ripindex.Format.Envelope.Exact.{bytes_eq→eq}
use ripindex.Format.Doc.{DocRecord, DocTableView, record_at, record_of, path_bytes}
use ripindex.Format.Doc.Check.{
  is_utf8, from_utf8, path_of, path, path_found, or_corrupt, verify_record, verify_rounds, verify,
}

-- What the check asks of the `i`-th record: its status, its length, its reserved bytes and its path.
pub record IsSound (v : DocTableView) (i : ℕ) (r : DocRecord) : Type 0 where
  pub found : record_of v i ≡ some r
  pub status_bound : r.status ≤ 3
  pub no_len : r.status ≢ 1 → r.len ≡ 0
  pub reserved : take 3 (drop (record_at i + 37) v.bytes) ≡ 0 ∷ 0 ∷ 0 ∷ []
  pub name : Bytes
  pub named : path_bytes v r ≡ some name
  pub utf8 : is_utf8 name ≡ true

abbrev pub AllSound : DocTableView → ℕ → ℕ → List DocRecord → Type 0
AllSound v zero i [] = Unit
AllSound v zero i (r ∷ rs) = ⊥
AllSound v (suc left) i [] = ⊥
AllSound v (suc left) i (r ∷ rs) = IsSound v i r × AllSound v left (i + 1) rs

abbrev pub indexed_records : List DocRecord → ℕ
indexed_records [] = 0
indexed_records (r ∷ rs) = (if r.status == 1 then 1 else 0) + indexed_records rs

abbrev pub indexed_atoms : List DocRecord → ℕ
indexed_atoms [] = 0
indexed_atoms (r ∷ rs) = (if r.status == 1 then r.len else 0) + indexed_atoms rs

-- The body has the checksum, the records are sound, and the counters count them.
pub record IsVerified (c : Crc32) (v : DocTableView) : Type 0 where
  pub sealed : Envelope.crc c (Envelope.body_of v.bytes v.env) ≡ v.env.stored
  pub records : List DocRecord
  pub sound : AllSound v v.num_docs 0 records
  pub indexed : indexed_records records % 2 ^ 32 ≡ v.num_indexed
  pub atom_sum : indexed_atoms records % 2 ^ 64 ≡ v.total_len

name_of :
    (v : DocTableView) (i : ℕ) (r : DocRecord)
    → record_of v i ≡ some r
    → path_found i (path v i) ≡ ok tt
    → (name : Bytes) × (path_bytes v r ≡ some name) × (is_utf8 name ≡ true)
unfolding path path_of from_utf8
name_of v i r e h = go (path_bytes v r) (subst (λ o. path_found i (path_of v o) ≡ ok tt) e h)
  where
    go :
        (o : Option Bytes)
        → path_found i (from_utf8 o) ≡ ok tt
        → (name : Bytes) × (o ≡ some name) × (is_utf8 name ≡ true)
    go none h = absurd cc
    go (some s) h = elim (Bool-cases (is_utf8 s)) [
      | inl u ↦ (s, refl, u)
      | inr u ↦ absurd (bad (subst (λ b. path_found i (if b then some s else none) ≡ ok tt) u h))
    ]
      where
        bad : path_found i none ≡ ok tt → ⊥
        bad h = cc

-- Outside the indexed records the length is zero.
no_len_of :
    (status len : ℕ) → not (not (status == 1) && not (len == 0)) ≡ true → status ≢ 1 → len ≡ 0
no_len_of status len h n = ground arith

no_len_test :
    (status len : ℕ) → (status ≢ 1 → len ≡ 0) → not (not (status == 1) && not (len == 0)) ≡ true
no_len_test status len h = elim (Bool-cases (status == 1)) [
  | inl e ↦ rw e refl
  | inr e ↦ rw e (rw (eq→== len 0 (h (λ s. clash (sym (eq→== status 1 s) ∙ e)))) refl)
]
  where
    clash : true ≡ false → ⊥
    clash q = cc

require-true : (b : Bool) (e : FormatError) → require b e ≡ ok tt → b ≡ true
require-true true e h = refl
require-true false e h = absurd cc

verify_record→IsSound :
    (v : DocTableView) (i : ℕ) (r : DocRecord)
    → record_of v i ≡ some r
    → verify_record v i r ≡ ok tt
    → IsSound v i r
unfolding verify_record
verify_record→IsSound v i r e h =
    let (a, h1) = >>-eq-ok (require (leb r.status 3) (corrupt (bad_status i r.status))) _ h in
    let (b, h2) =
      >>-eq-ok
        (require (not (not (r.status == 1) && not (r.len == 0)))
          (corrupt (nonindexed_with_len i r.len)))
        _ h1 in
    let (d, h3) =
      >>-eq-ok
        (require (bytes_eq (take 3 (drop (record_at i + 37) v.bytes)) (0 ∷ 0 ∷ 0 ∷ []))
          (corrupt (reserved_bytes_set i)))
        _ h2 in
    let (name, named, utf8) = name_of v i r e h3 in
    record {
      found = e;
      status_bound = leb→le r.status 3 (require-true _ _ a);
      no_len = no_len_of r.status r.len (require-true _ _ b);
      reserved = bytes_eq→eq _ _ (require-true _ _ d);
      name = name;
      named = named;
      utf8 = utf8;
    }

IsSound→verify_record :
    (v : DocTableView) (i : ℕ) (r : DocRecord) → IsSound v i r → verify_record v i r ≡ ok tt
unfolding verify_record path path_of from_utf8
IsSound→verify_record v i r s =
    rw
      (
        le→leb r.status 3 s.status_bound,
        no_len_test r.status r.len s.no_len,
        s.reserved,
        bytes_eq_refl (0 ∷ 0 ∷ 0 ∷ []),
        s.found,
        s.named,
        s.utf8,
      )
      refl

or_corrupt-some : (o : Option DocRecord) (r : DocRecord) → or_corrupt o ≡ ok r → o ≡ some r
or_corrupt-some none r h = absurd cc
or_corrupt-some (some a) r h = ap some (ok-injective h)

verify_rounds-AllSound :
    (v : DocTableView) (left i num total : ℕ) {out : ℕ × ℕ}
    → verify_rounds v left i num total ≡ ok out
    → (rs : List DocRecord) × AllSound v left i rs
unfolding verify_rounds
verify_rounds-AllSound v zero i num total h = ([], tt)
verify_rounds-AllSound v (suc left) i num total h =
    let (r, got, h1) = >>=-eq-ok (or_corrupt (record_of v i)) _ h in
    let found = or_corrupt-some (record_of v i) r got in
    let (passed, h2) = >>-eq-ok (verify_record v i r) _ h1 in
    let (rs, all) =
      verify_rounds-AllSound v left (i + 1) (if r.status == 1 then (num + 1) % 2 ^ 32 else num)
        (if r.status == 1 then (total + r.len) % 2 ^ 64 else total) h2 in
    (r ∷ rs, (verify_record→IsSound v i r found passed, all))

-- What a round does after its checks.
abbrev more : DocTableView → ℕ → ℕ → ℕ → ℕ → Bool → ℕ → Result (ℕ × ℕ)
more v i left num total here len =
    verify_rounds v left (i + 1) (if here then (num + 1) % 2 ^ 32 else num)
      (if here then (total + len) % 2 ^ 64 else total)

verify_rounds-eq :
    (v : DocTableView) (left i num total : ℕ) (rs : List DocRecord)
    → AllSound v left i rs
    → num < 2 ^ 32
    → total < 2 ^ 64
    → verify_rounds v left i num total
      ≡ ok ((num + indexed_records rs) % 2 ^ 32, (total + indexed_atoms rs) % 2 ^ 64)
unfolding verify_rounds
verify_rounds-eq v zero i num total [] s hn ht =
    let a : (num + 0) % 2 ^ 32 ≡ num = omega arith in
    let b : (total + 0) % 2 ^ 64 ≡ total = omega arith in rw (a, b) refl
verify_rounds-eq v zero i num total (r ∷ rs) s hn ht = absurd s
verify_rounds-eq v (suc left) i num total [] s hn ht = absurd s
verify_rounds-eq v (suc left) i num total (r ∷ rs) s hn ht =
    ap
      (λ o.
        or_corrupt o >>= λ r. verify_record v i r >> more v i left num total (r.status == 1) r.len)
      s.0.found
    ∙ ap (λ checked. checked >> more v i left num total (r.status == 1) r.len)
        (IsSound→verify_record v i r s.0)
    ∙ (elim (Bool-cases (r.status == 1)) [
      | inr e ↦
          let a : num + (0 + indexed_records rs) ≡ num + indexed_records rs = omega arith in
          let b : total + (0 + indexed_atoms rs) ≡ total + indexed_atoms rs = omega arith in
          rw e (rw (a, b) (verify_rounds-eq v left (i + 1) num total rs s.1 hn ht))
      | inl e ↦
          let a : ((num + 1) % 2 ^ 32 + indexed_records rs) % 2 ^ 32
              ≡ (num + (1 + indexed_records rs)) % 2 ^ 32 =
            omega arith in
          let b : ((total + r.len) % 2 ^ 64 + indexed_atoms rs) % 2 ^ 64
              ≡ (total + (r.len + indexed_atoms rs)) % 2 ^ 64 =
            omega arith in
          rw e (
            rw (← a, ← b)
              (verify_rounds-eq v left (i + 1) ((num + 1) % 2 ^ 32) ((total + r.len) % 2 ^ 64) rs
                s.1 (omega arith) (omega arith)))
    ])

-- The full check passes a view if and only if its body has the stored checksum; every record can be
-- read, has a status that there is, no length unless it is indexed, no reserved byte set and a path
-- in the heap that is UTF-8; and the counters are, on their widths, the number of the indexed
-- records and the sum of their lengths.
pub verify_iff : (c : Crc32) (v : DocTableView) → (verify c v ≡ ok tt) ↔ IsVerified c v
unfolding verify Envelope.verify_crc
verify_iff c v = (forth, back)
  where
    forth : verify c v ≡ ok tt → IsVerified c v
    forth h =
        let (a, h1) = >>-eq-ok (Envelope.verify_crc c v.bytes v.env) _ h in
        let (out, rounds, h2) = >>=-eq-ok (verify_rounds v v.num_docs 0 0 0) _ h1 in
        let (rs, all) = verify_rounds-AllSound v v.num_docs 0 0 0 rounds in
        let same : ◌≡◌ {A = ℕ × ℕ}
            ((0 + indexed_records rs) % 2 ^ 32, (0 + indexed_atoms rs) % 2 ^ 64) out =
          ok-injective (
            sym (verify_rounds-eq v v.num_docs 0 0 0 rs all (omega arith) (omega arith))
            ∙ rounds) in
        let agree = require-true _ _ h2 in
        record {
          sealed = (==_iff _ _).0 (require-true _ _ a);
          records = rs;
          sound = all;
          indexed = counted rs out.0 out.1 same agree;
          atom_sum = summed rs out.0 out.1 same agree;
        }
      where
        counted :
            (rs : List DocRecord) (n t : ℕ)
            → ◌≡◌ {A = ℕ × ℕ}
                ((0 + indexed_records rs) % 2 ^ 32, (0 + indexed_atoms rs) % 2 ^ 64)
                (n, t)
            → ((n == v.num_indexed) && (t == v.total_len)) ≡ true
            → indexed_records rs % 2 ^ 32 ≡ v.num_indexed
        counted rs n t e h =
            let f : (0 + indexed_records rs) % 2 ^ 32 ≡ n = ap (λ o. o.0) e in
            let g : n ≡ v.num_indexed = ground arith in omega (arith, f, g)

        summed :
            (rs : List DocRecord) (n t : ℕ)
            → ◌≡◌ {A = ℕ × ℕ}
                ((0 + indexed_records rs) % 2 ^ 32, (0 + indexed_atoms rs) % 2 ^ 64)
                (n, t)
            → ((n == v.num_indexed) && (t == v.total_len)) ≡ true
            → indexed_atoms rs % 2 ^ 64 ≡ v.total_len
        summed rs n t e h =
            let f : (0 + indexed_atoms rs) % 2 ^ 64 ≡ t = ap (λ o. o.1) e in
            let g : t ≡ v.total_len = ground arith in omega (arith, f, g)

    back : IsVerified c v → verify c v ≡ ok tt
    back s =
        let a : (0 + indexed_records s.records) % 2 ^ 32 ≡ v.num_indexed =
          omega (arith, s.indexed) in
        let b : (0 + indexed_atoms s.records) % 2 ^ 64 ≡ v.total_len = omega (arith, s.atom_sum) in
        rw
          (
            eq→== _ _ s.sealed,
            verify_rounds-eq v v.num_docs 0 0 0 s.records s.sound (omega arith) (omega arith),
            eq→== _ _ a,
            eq→== _ _ b,
          )
          refl
