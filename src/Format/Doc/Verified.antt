-- ===== src/Format/Doc/Verified.antt =====
-- src/format/doc.rs, `verify`: the full check passes on the file of a table.
use ripindex.Common.{
  ℕ, zero, suc, ◌+◌, ◌*◌, ◌%◌, ◌^◌, ◌≤◌, ◌<◌, ◌≡◌, refl, sym, ap, ◌∙◌, Bool, true, false, some,
  List, [], ◌∷◌, length, get_elem?, drop, arith, leb, ◌==◌, eq→==, if◌then◌else◌, get_elem?-drop,
  drop-drop, All,
}
use ripindex.Format.{Result, ok, ◌>>=◌, ◌>>◌}
use ripindex.Format.Checksum.{Crc32}
use ripindex.Format.Envelope
use ripindex.Format.Envelope.{doc, bytes_eq}
use ripindex.Format.Envelope.RoundTrip.{body_of-file}
use ripindex.Format.Doc.{
  DocKind, skipped, indexed, binary, too_large, DocIn, DocRecord, is_indexed, byte,
}
use ripindex.Format.Doc.Check.{path_found, or_corrupt, verify_record, verify_rounds, verify}
use ripindex.Format.Doc.Layout.{
  FieldsFit, IsTable, count_indexed, sum_len, len_step, num_step, len_allowed,
}
use ripindex.Format.Doc.Record.{record_for}
use ripindex.Format.Doc.RoundTrip.{body, doc_file, view, length-body}
use ripindex.Format.Doc.Find.{path_at, fit-at, record_of-view, reserved-at}

byte-le : (k : DocKind) → leb (byte k) 3 ≡ true
unfolding byte
byte-le skipped = refl
byte-le indexed = refl
byte-le binary = refl
byte-le too_large = refl

byte-indexed : (k : DocKind) → (byte k == 1) ≡ is_indexed k
unfolding byte is_indexed
byte-indexed skipped = refl
byte-indexed indexed = refl
byte-indexed binary = refl
byte-indexed too_large = refl

drop-next {ℓ} :
    {A : Type ℓ} (xs : List A) (i : ℕ) (x : A) (r : List A)
    → drop i xs ≡ x ∷ r
    → drop (i + 1) xs ≡ r
drop-next xs i x r h = sym (drop-drop i 1 xs) ∙ ap (drop 1) h

module _ (c : Crc32) (docs : List DocIn) (t : IsTable docs) where
  verify_record-at :
      (i : ℕ) (d : DocIn)
      → get_elem? docs i ≡ some d
      → verify_record (view c docs) i (record_for (path_at docs i) d) ≡ ok tt
  unfolding verify_record
  verify_record-at i d h =
      let (_, text, _) = record_of-view c docs i d t h in
      rw
        (
          byte-le d.kind,
          byte-indexed d.kind,
          len_allowed (is_indexed d.kind) d.len (fit-at c docs i d t h).no_len,
          reserved-at c docs i d t h,
        )
        (unfold bytes_eq in ap (path_found i) text)

  -- What a round does after its checks, and the whole round.
  abbrev more : ℕ → ℕ → ℕ → ℕ → Bool → ℕ → Result (ℕ × ℕ)
  more i left num total here len =
      verify_rounds (view c docs) left (i + 1) (if here then (num + 1) % 2 ^ 32 else num)
        (if here then (total + len) % 2 ^ 64 else total)

  abbrev round : ℕ → ℕ → ℕ → ℕ → DocRecord → Result (ℕ × ℕ)
  round i left num total r =
      verify_record (view c docs) i r >> more i left num total (r.status == 1) r.len

  -- The rounds from the `i`-th record on.
  verify_rounds-at :
      (i left num total : ℕ) (ds : List DocIn)
      → drop i docs ≡ ds
      → length ds ≡ left
      → All FieldsFit ds
      → num + length ds < 2 ^ 32
      → total + 2 ^ 32 * length ds < 2 ^ 64
      → verify_rounds (view c docs) left i num total
        ≡ ok (num + count_indexed ds, total + sum_len ds)
  unfolding verify_rounds
  verify_rounds-at i zero num total [] e len fs hn ht =
      let a : num + 0 ≡ num = omega arith in
      let b : total + 0 ≡ total = omega arith in rw (a, b) refl
  verify_rounds-at i zero num total (d ∷ ds) e len fs hn ht = absurd (omega (arith, len))
  verify_rounds-at i (suc left) num total [] e len fs hn ht = absurd (omega (arith, len))
  verify_rounds-at i (suc left) num total (d ∷ ds) e len (f, fs) hn ht =
      let h = get_elem?-drop docs i e in
      let (seen, _, _) = record_of-view c docs i d t h in
      let n_small : num + 1 < 2 ^ 32 = omega arith in
      let t_small : total + d.len < 2 ^ 64 = omega (arith, f.len) in
      ap (λ o. or_corrupt o >>= λ r. round i left num total r) seen
      ∙ ap (λ checked. checked >> more i left num total (byte d.kind == 1) d.len)
          (verify_record-at i d h)
      ∙ ap (λ b. more i left num total b d.len) (byte-indexed d.kind)
      ∙ rw
          (
            num_step (is_indexed d.kind) num n_small,
            len_step (is_indexed d.kind) total d.len t_small,
          )
          (verify_rounds-at (i + 1) left (num + (if is_indexed d.kind then 1 else 0))
              (total + (if is_indexed d.kind then d.len else 0)) ds (drop-next docs i d ds e)
              (omega (arith, len)) fs (omega (arith, bit_small (is_indexed d.kind)))
              (omega (arith, f.len, len_small (is_indexed d.kind) d.len))
            ∙ rw (add_assoc num _ (count_indexed ds), add_assoc total _ (sum_len ds)) refl)
    where
      bit_small : (b : Bool) → (if b then 1 else 0) ≤ 1
      bit_small true = omega arith
      bit_small false = omega arith

      len_small : (b : Bool) (l : ℕ) → (if b then l else 0) ≤ l
      len_small true l = omega arith
      len_small false l = omega arith

      add_assoc : (a b c : ℕ) → a + b + c ≡ a + (b + c)
      add_assoc a b c = omega arith

-- The full check, of the checksum, of every record and of the counters, passes on the file of a table.
pub verify-view : (c : Crc32) (docs : List DocIn) → IsTable docs → verify c (view c docs) ≡ ok tt
unfolding verify
verify-view c docs t =
    let small : Envelope.crc c (body docs) < 2 ^ 32 =
      unfold Envelope.crc in Crc32.hash-lt c (body docs) in
    let room : length (body docs) + 32 < 2 ^ 64 =
      omega (arith, length-body docs, t.count, t.paths) in
    let rounds =
      verify_rounds-at c docs t 0 (length docs) 0 0 docs refl refl t.fits (omega (arith, t.count))
        (omega (arith, t.count)) in
    rw
      (
        sealed small room,
        rounds,
        eq→== (0 + count_indexed docs) _ refl,
        eq→== (0 + sum_len docs) _ refl,
      )
      refl
  where
    sealed :
        Envelope.crc c (body docs) < 2 ^ 32
        → length (body docs) + 32 < 2 ^ 64
        → Envelope.verify_crc c (doc_file c docs) (view c docs).env ≡ ok tt
    sealed small room =
        unfold Envelope.verify_crc in
        rw
          (
            body_of-file doc (body docs) (Envelope.crc c (body docs)) small room,
            eq→== (Envelope.crc c (body docs)) _ refl,
          )
          refl
