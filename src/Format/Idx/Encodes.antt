-- ===== src/Format/Idx/Encodes.antt =====
-- src/format/idx.rs, `encode_postings`: the bytes that it appends, and the lists that it refuses.
use ripindex.Common.{
  ℕ, ◌+◌, ◌%◌, ◌^◌, ◌<◌, ◌≡◌, refl, ◌∙◌, Option, none, some, List, [], ◌∷◌, ◌++◌, length, arith,
  append_assoc, append-nil, false,
}
use ripindex.Format.{Bytes, Result, ok, err}
use ripindex.Format.Binds.{>>=-eq-ok}
use ripindex.Format.Varint.{put_u32}
use ripindex.Format.Varint.Write.{put_u64-append}
use ripindex.Format.Idx.Postings.{
  Posting, delta, stalls, encode_positions, encode_posting, encode_rounds, encode_postings,
}
use ripindex.Format.Idx.Layout.{
  position_bytes, header_bytes, posting_bytes, list_bytes, Above, Increasing, Sound, IsPostingList,
}

put_u32-append : (out : Bytes) (v : ℕ) → put_u32 out v ≡ out ++ put_u32 [] v
unfolding put_u32
put_u32-append = put_u64-append

stalls-Above : (prev : Option ℕ) (n : ℕ) → Above prev n → stalls prev n ≡ false
unfolding stalls
stalls-Above none n h = refl
stalls-Above (some p) n h = ground arith

encode_positions-eq :
    (ps : List ℕ) (prev : Option ℕ) (scratch : Bytes)
    → Increasing prev ps
    → encode_positions ps prev scratch ≡ ok (scratch ++ position_bytes prev ps)
unfolding encode_positions position_bytes
encode_positions-eq [] prev scratch h = rw append-nil
encode_positions-eq (p ∷ ps) prev scratch h =
    let tail = encode_positions-eq ps (some p) (put_u32 scratch (delta prev p)) h.2 in
    rw (stalls-Above prev p h.0) (tail ∙ rw (put_u32-append scratch (delta prev p), append_assoc))

encode_posting-eq :
    (prev : Option ℕ) (d : ℕ) (ps : List ℕ) (out : Bytes)
    → Above prev d
    → 0 < length ps
    → length ps < 2 ^ 32
    → length (position_bytes none ps) < 2 ^ 32
    → Increasing none ps
    → encode_posting prev (d, ps) out
      ≡ ok (out ++ (header_bytes prev (d, ps) ++ position_bytes none ps))
unfolding encode_posting header_bytes
encode_posting-eq prev d [] out ha hn hl hb hi = absurd (omega arith)
encode_posting-eq prev d (p ∷ ps) out ha hn hl hb hi =
    let count : length (p ∷ ps) % 2 ^ 32 ≡ length (p ∷ ps) = omega arith in
    let size : length (position_bytes none (p ∷ ps)) % 2 ^ 32
        ≡ length (position_bytes none (p ∷ ps)) =
      omega arith in
    rw (stalls-Above prev d ha, encode_positions-eq (p ∷ ps) none [] hi, count, size)
      (rw
        (
          put_u32-append (put_u32 (put_u32 out (delta prev d)) (length (p ∷ ps))) _,
          put_u32-append (put_u32 out (delta prev d)) (length (p ∷ ps)),
          put_u32-append out (delta prev d),
        )
        (simp append_assoc))

-- The positions of all the documents, in number.
abbrev pub total : List Posting → ℕ
total [] = 0
total ((d, ps) ∷ rest) = length ps + total rest

encode_rounds-eq :
    (postings : List Posting) (prev : Option ℕ) (out : Bytes) (tokens : ℕ)
    → Sound prev postings
    → encode_rounds postings prev out tokens
      ≡ ok (out ++ posting_bytes prev postings, tokens + total postings)
unfolding encode_rounds posting_bytes
encode_rounds-eq [] prev out tokens h =
    let e : tokens + 0 ≡ tokens = omega arith in rw (append-nil, e)
encode_rounds-eq ((d, ps) ∷ rest) prev out tokens (ha, hd, hn, hl, hb, hi, hr) =
    let one = encode_posting-eq prev d ps out ha hn hl hb hi in
    let sum : tokens + length ps + total rest ≡ tokens + (length ps + total rest) = omega arith in
    rw one (
      encode_rounds-eq rest (some d) _ (tokens + length ps) hr
      ∙ rw (append_assoc, append_assoc, sum))

-- A posting list that meets the format's conditions is accepted: its layout is appended to the
-- buffer, and its positions are counted.
pub encode_postings-eq :
    (postings : List Posting) (out : Bytes)
    → IsPostingList postings
    → encode_postings postings out ≡ ok (out ++ list_bytes postings, total postings)
unfolding encode_postings list_bytes
encode_postings-eq postings out v =
    let count : length postings % 2 ^ 32 ≡ length postings = omega (arith, v.count-lt) in
    let sum : 0 + total postings ≡ total postings = omega arith in
    rw count (
      encode_rounds-eq postings none _ 0 v.sound
      ∙ rw (put_u32-append out (length postings), append_assoc, sum))

-- What the guards let pass: documents and positions strictly increase, and no document is without
-- positions.
abbrev pub Rising : Option ℕ → List ℕ → Type 0
Rising prev [] = Unit
Rising prev (p ∷ ps) = Above prev p × Rising (some p) ps

abbrev pub Ordered : Option ℕ → List Posting → Type 0
Ordered prev [] = Unit
Ordered prev ((d, ps) ∷ rest) =
    Above prev d × (0 < length ps) × Rising none ps × Ordered (some d) rest

not_stalled : (prev : Option ℕ) (n : ℕ) → stalls prev n ≡ false → Above prev n
unfolding stalls
not_stalled none n h = tt
not_stalled (some p) n h = ground arith

encode_positions-Rising :
    (ps : List ℕ) (prev : Option ℕ) (scratch r : Bytes)
    → encode_positions ps prev scratch ≡ ok r
    → Rising prev ps
unfolding encode_positions
encode_positions-Rising [] prev scratch r h = tt
encode_positions-Rising (p ∷ ps) prev scratch r h =
    let next = put_u32 scratch (delta prev p) in
    (not_stalled prev p (ground arith), encode_positions-Rising ps (some p) next r (ground arith))

encode_posting-Rising :
    (prev : Option ℕ) (d : ℕ) (ps : List ℕ) (out r : Bytes)
    → encode_posting prev (d, ps) out ≡ ok r
    → Above prev d × (0 < length ps) × Rising none ps
unfolding encode_posting
encode_posting-Rising prev d [] out r h = ground arith
encode_posting-Rising prev d (p ∷ ps) out r h =
    (not_stalled prev d (ground arith), omega arith, inner (encode_positions (p ∷ ps) none []) refl)
  where
    inner : (s : Result Bytes) → encode_positions (p ∷ ps) none [] ≡ s → Rising none (p ∷ ps)
    inner (ok s) e = encode_positions-Rising (p ∷ ps) none [] s e
    inner (err x) e = absurd (ground (arith, h, e))

encode_rounds-Ordered :
    (postings : List Posting) (prev : Option ℕ) (out : Bytes) (tokens : ℕ) (r : Bytes × ℕ)
    → encode_rounds postings prev out tokens ≡ ok r
    → Ordered prev postings
unfolding encode_rounds
encode_rounds-Ordered [] prev out tokens r h = tt
encode_rounds-Ordered ((d, ps) ∷ rest) prev out tokens r h =
    let (out', one, more) = >>=-eq-ok (encode_posting prev (d, ps) out) _ h in
    let (above, nonempty, rising) = encode_posting-Rising prev d ps out out' one in
    (above, nonempty, rising, encode_rounds-Ordered rest (some d) out' (tokens + length ps) r more)

-- A list that the encoder does not refuse has strictly increasing documents and positions, and no
-- document without positions.
pub encode_postings-Ordered :
    (postings : List Posting) (out : Bytes) (r : Bytes × ℕ)
    → encode_postings postings out ≡ ok r
    → Ordered none postings
unfolding encode_postings
encode_postings-Ordered postings out r h = encode_rounds-Ordered postings none _ 0 r h
