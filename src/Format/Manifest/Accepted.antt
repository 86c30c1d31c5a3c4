-- ===== src/Format/Manifest/Accepted.antt =====
-- src/format/manifest.rs: the checks of `decode`, as a condition on the manifest, and what they
-- give: the segments own disjoint, ascending ranges of documents.
use ripindex.Common.{
  ℕ, zero, suc, ◌+◌, ◌*◌, ◌^◌, ◌≤◌, ◌<◌, ◌≡◌, ◌≢◌, ◌↔◌, refl, ap, Option, none, some, List, [], ◌∷◌,
  length, get_elem?, arith, All, leb, ◌==◌,
}
use ripindex.Format.{
  Bytes, FormatError, ok, truncated, corrupt, reserved_nonzero, state_gen_len_disagree,
  manifest_body_length, read_u32_le, read_u64_le, read_i64_le, require,
}
use mathlib.Core.Path.{subst}
use ripindex.Format.Binds.{>>=-eq-ok, >>-eq-ok, >>=-elim, >>-elim, ok-injective}
use ripindex.Format.Manifest.{
  SegmentEntry, Manifest, end_doc, check_entry, follows, agree, decode_entry, decode_entries,
  decode_body, decode,
}
use ripindex.Format.Checksum.{Crc32}
use ripindex.Format.Envelope
use ripindex.Format.Envelope.{manifest}

abbrev pub Follows : Option SegmentEntry → SegmentEntry → Type 0
Follows none e = Unit
Follows (some prev) e = (end_doc prev ≤ e.base_doc) × (e.segment_id ≢ prev.segment_id)

-- What an entry owes to the manifest and to the entry before it.
pub record IsNext (next_segment_id : ℕ) (prev : Option SegmentEntry) (e : SegmentEntry)
    : Type 0 where
  pub id-lt : e.segment_id < next_segment_id
  pub after : Follows prev e
  pub end-le : end_doc e ≤ 2 ^ 32
  pub del_agree : (e.del_gen ≡ 0) ↔ (e.del_len ≡ 0)
  pub deleted-le : e.num_deleted ≤ e.num_docs

abbrev pub Chain : ℕ → Option SegmentEntry → List SegmentEntry → Type 0
Chain next prev [] = Unit
Chain next prev (e ∷ es) = IsNext next prev e × Chain next (some e) es

pub follows_iff :
    (prev : Option SegmentEntry) (e : SegmentEntry) → (follows prev e ≡ ok tt) ↔ Follows prev e
unfolding follows
follows_iff none e = ground arith
follows_iff (some p) e = ground arith

check_entry→IsNext :
    (next : ℕ) (prev : Option SegmentEntry) (e : SegmentEntry)
    → check_entry next prev e ≡ ok tt
    → IsNext next prev e
unfolding check_entry
check_entry→IsNext next none e h = ground arith
check_entry→IsNext next (some p) e h = ground arith

pub IsNext→check_entry :
    (next : ℕ) (prev : Option SegmentEntry) (e : SegmentEntry)
    → IsNext next prev e
    → check_entry next prev e ≡ ok tt
unfolding check_entry
IsNext→check_entry next none e h = ground arith
IsNext→check_entry next (some p) e h = ground arith

decode_entries-Chain :
    (b : Bytes) (next rounds i : ℕ) (prev : Option SegmentEntry) (es : List SegmentEntry)
    → decode_entries b next rounds i prev ≡ ok es
    → Chain next prev es × (length es ≡ rounds)
unfolding decode_entries
decode_entries-Chain b next zero i prev es h = let e : es ≡ [] = cc in rw e (tt, refl)
decode_entries-Chain b next (suc rounds) i prev es h =
    let (e, _, checked) = >>=-eq-ok (decode_entry b (48 + i * 80)) _ h in
    let (passed, rest) = >>-eq-ok (check_entry next prev e) _ checked in
    let (fs, more, pushed) = >>=-eq-ok (decode_entries b next rounds (i + 1) (some e)) _ rest in
    let (chain, len) = decode_entries-Chain b next rounds (i + 1) (some e) fs more in
    let all : es ≡ e ∷ fs = cc in
    rw all ((check_entry→IsNext next prev e passed, chain), ap suc len)

-- What `decode` promises of a manifest.
pub record IsAccepted (m : Manifest) : Type 0 where
  pub state_agree : (m.state_gen ≡ 0) ↔ (m.state_len ≡ 0)
  pub chain : Chain m.next_segment_id none m.segments

agree_iff :
    (a b : ℕ) (e : FormatError) → require (agree (a == 0) (b == 0)) e ≡ ok tt → (a ≡ 0) ↔ (b ≡ 0)
unfolding agree
agree_iff a b e h = ground arith

decode_body-IsAccepted : (b : Bytes) (m : Manifest) → decode_body b ≡ ok m → IsAccepted m
unfolding decode_body
decode_body-IsAccepted b m h =
    >>-elim (require (leb 48 (length b)) (truncated (length b) 48)) _ h λ _ h₁.
      >>=-elim (read_u64_le b 0) _ h₁ λ generation _ h₂.
        >>=-elim (read_u32_le b 8) _ h₂ λ next _ h₃. >>=-elim (read_u32_le b 12) _ h₃ λ num _ h₄.
          >>=-elim (read_i64_le b 16) _ h₄ λ nanos _ h₅.
            >>=-elim (read_u32_le b 24) _ h₅ λ gen _ h₆.
              >>=-elim (read_u32_le b 28) _ h₆ λ crc _ h₇.
                >>=-elim (read_u64_le b 32) _ h₇ λ len _ h₈.
                  >>=-elim (read_u64_le b 40) _ h₈ λ reserved _ h₉.
                    >>-elim (require (reserved == 0) (corrupt reserved_nonzero)) _ h₉ λ _ h₁₀.
                      >>-elim
                        (require (agree (gen == 0) (len == 0)) (corrupt state_gen_len_disagree)) _
                        h₁₀
                        λ agreed h₁₁.
                          >>-elim
                            (require (length b == 48 + 80 * num)
                              (corrupt (manifest_body_length (length b) (48 + 80 * num))))
                            _ h₁₁
                            λ _ h₁₂.
                              >>=-elim (decode_entries b next num 0 none) _ h₁₂ λ es entries done.
                                subst IsAccepted (ok-injective done) (record {
                                  state_agree =
                                      agree_iff gen len (corrupt state_gen_len_disagree) agreed;
                                  chain = (decode_entries-Chain b next num 0 none es entries).0;
                                })

-- Every later segment starts at or after the end of this one.
Chain-after :
    (next : ℕ) (e : SegmentEntry) (es : List SegmentEntry)
    → Chain next (some e) es
    → All (λ f. end_doc e ≤ f.base_doc) es
unfolding end_doc
Chain-after next e [] h = tt
Chain-after next e (f ∷ fs) (n, rest) =
    (n.after.0, All-weaken (n.after.0) fs (Chain-after next f fs rest))
  where
    All-weaken :
        end_doc e ≤ f.base_doc
        → (gs : List SegmentEntry) → All (λ g. end_doc f ≤ g.base_doc) gs
        → All (λ g. end_doc e ≤ g.base_doc) gs
    All-weaken le [] h = tt
    All-weaken le (g ∷ gs) h = (omega arith, All-weaken le gs h.1)

-- The segment owns the global document id.
abbrev pub Owns : SegmentEntry → ℕ → Type 0
Owns e d = (e.base_doc ≤ d) × (d < end_doc e)

owner-after :
    (e : SegmentEntry) (es : List SegmentEntry) (d j : ℕ) (f : SegmentEntry)
    → All (λ g. end_doc e ≤ g.base_doc) es
    → get_elem? es j ≡ some f
    → Owns e d
    → ¬ (Owns f d)
owner-after e [] d j f a g o = λ o'. cc
owner-after e (x ∷ xs) d zero f a g o =
    let same : x ≡ f = cc in let le : end_doc e ≤ f.base_doc = rw same at a.0 in λ o'. omega arith
owner-after e (x ∷ xs) d (suc j) f a g o = owner-after e xs d j f a.1 g o

Chain-owner :
    (next : ℕ) (prev : Option SegmentEntry) (es : List SegmentEntry) (i j d : ℕ)
    (e f : SegmentEntry)
    → Chain next prev es
    → get_elem? es i ≡ some e
    → get_elem? es j ≡ some f
    → Owns e d
    → Owns f d
    → i ≡ j
Chain-owner next prev [] i j d e f c gi gj oi oj = cc
Chain-owner next prev (x ∷ xs) zero zero d e f c gi gj oi oj = refl
Chain-owner next prev (x ∷ xs) zero (suc j) d e f c gi gj oi oj =
    let same : x ≡ e = cc in
    absurd (owner-after e xs d j f (rw same at (Chain-after next x xs c.1)) gj oi oj)
Chain-owner next prev (x ∷ xs) (suc i) zero d e f c gi gj oi oj =
    let same : x ≡ f = cc in
    absurd (owner-after f xs d i e (rw same at (Chain-after next x xs c.1)) gi oj oi)
Chain-owner next prev (x ∷ xs) (suc i) (suc j) d e f c gi gj oi oj =
    ap suc (Chain-owner next (some x) xs i j d e f c.1 gi gj oi oj)

-- A manifest that `decode` accepts has segment ids below the next id, each unlike the one before,
-- ranges of documents that ascend within 32 bits, at most as many deletions as documents, and for
-- the deletions of an entry, as for the state, a generation exactly when there is a length.
pub decode-IsAccepted :
    (c : Crc32) (bytes : Bytes) (m : Manifest) → decode c bytes ≡ ok m → IsAccepted m
unfolding decode
decode-IsAccepted c bytes m h =
    let (env, _, body) = >>=-eq-ok (Envelope.parse_verified c manifest bytes) _ h in
    decode_body-IsAccepted (Envelope.body_of bytes env) m body

-- In a manifest that `decode` accepts no two segments own the same document: entries that own it
-- stand at the same place.
pub decode-Owns :
    (c : Crc32) (bytes : Bytes) (m : Manifest) (i j d : ℕ) (e f : SegmentEntry)
    → decode c bytes ≡ ok m
    → get_elem? m.segments i ≡ some e
    → get_elem? m.segments j ≡ some f
    → Owns e d
    → Owns f d
    → i ≡ j
decode-Owns c bytes m i j d e f h =
    Chain-owner m.next_segment_id none m.segments i j d e f (decode-IsAccepted c bytes m h).chain
