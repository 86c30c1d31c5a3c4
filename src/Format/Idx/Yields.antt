-- ===== src/Format/Idx/Yields.antt =====
-- src/format/idx.rs, `DiskCursor`: what a caller sees of a cursor over an encoded posting list.
use ripindex.Common.{ℕ, ◌≡◌, refl, Option, none, some, List, [], ◌∷◌, length, arith}
use ripindex.Format.{Bytes, ok}
use ripindex.Format.Varint.{put_u32}
use ripindex.Format.Varint.RoundTrip.{read_u32-at}
use ripindex.Format.Idx.Postings.{Posting, encode_postings}
use ripindex.Format.Idx.Encodes.{encode_postings-eq, total}
use ripindex.Format.Idx.Layout.{posting_bytes, list_bytes, IsPostingList}
use ripindex.Format.Idx.Cursor.{
  Current, DiskCursor, load_next, started, new, doc, advance, positions, term_freq,
}
use ripindex.Format.Idx.Stands.{Before, On, AtEnd, load-On, load-AtEnd, On-Before, positions-On}

-- The documents still to come, the current one first.
abbrev pub Stands : DiskCursor → List Posting → Type 0
Stands c [] = AtEnd c
Stands c ((d, ps) ∷ rest) = (front : Bytes) × (prev : Option ℕ) × On c front prev d ps rest

pub load-Stands :
    (c : DiskCursor) (front : Bytes) (prev : Option ℕ) (postings : List Posting)
    → Before c front prev postings
    → Stands (load_next c) postings
load-Stands c front prev [] b = load-AtEnd c front prev b
load-Stands c front prev ((d, ps) ∷ rest) b = (front, prev, load-On c front prev d ps rest b)

pub next-Stands :
    (c : DiskCursor) (d : ℕ) (ps : List ℕ) (rest : List Posting)
    → Stands c ((d, ps) ∷ rest)
    → Stands (load_next c) rest
next-Stands c d ps rest (front, prev, o) =
    load-Stands c _ (some d) rest (On-Before c front prev d ps rest o)

pub advance-Stands :
    (c : DiskCursor) (d : ℕ) (ps : List ℕ) (rest : List Posting)
    → Stands c ((d, ps) ∷ rest)
    → Stands (advance c) rest
advance-Stands c d ps rest s = rw (advances c _ s.2.cur_at) (next-Stands c d ps rest s)
  where
    advances : (c : DiskCursor) (k : Current) → c.cur ≡ some k → advance c ≡ load_next c
    advances c k e = unfold advance in rw e

pub positions-Stands :
    (c : DiskCursor) (d : ℕ) (ps : List ℕ) (rest : List Posting)
    → Stands c ((d, ps) ∷ rest)
    → Stands (positions c) ((d, ps) ∷ rest)
positions-Stands c d ps rest (front, prev, o) =
    (front, prev, (positions-On c front prev d ps rest o).0)

pub new-Stands :
    (postings : List Posting) → IsPostingList postings → Stands (new (list_bytes postings)) postings
unfolding new started list_bytes
new-Stands postings v =
    let count = put_u32 [] (length postings) in
    let read = read_u32-at [] (posting_bytes none postings) (length postings) v.count-lt in
    rw read (
      load-Stands _ count none postings (record {
        bytes_at = refl;
        fits = v.fits;
        pos_at = omega arith;
        remaining_at = refl;
        doc_before = refl;
        no_error = refl;
        sound = v.sound;
      }))

-- What the methods of the cursor return, on the posting it stands on and on all that follow: the
-- document, its frequency and its positions; and `advance` goes on to the next posting whether or
-- not the positions were decoded. Behind the last posting no document is left, no error was met,
-- and all the bytes were read.
abbrev pub Yields : DiskCursor → List Posting → Type 0
Yields c [] = (doc c ≡ none) × (c.error ≡ none) × (c.pos ≡ length c.bytes)
Yields c ((d, ps) ∷ rest) =
    (doc c ≡ some d)
    × (term_freq c ≡ length ps)
    × ((positions c).positions ≡ ps)
    × Yields (advance c) rest
    × Yields (advance (positions c)) rest

pub Stands-Yields :
    (c : DiskCursor) (postings : List Posting) → Stands c postings → Yields c postings
unfolding doc term_freq
Stands-Yields c [] s = (rw s.no_doc, s.no_error, s.read_all)
Stands-Yields c ((d, ps) ∷ rest) (front, prev, o) =
    let s : Stands c ((d, ps) ∷ rest) = (front, prev, o) in
    (
      rw o.cur_at,
      rw o.cur_at,
      (positions-On c front prev d ps rest o).1,
      Stands-Yields (advance c) rest (advance-Stands c d ps rest s),
      Stands-Yields (advance (positions c)) rest
          (advance-Stands (positions c) d ps rest (positions-Stands c d ps rest s)),
    )

-- A posting list with strictly increasing documents and positions, whose counts and lengths fit
-- 32 bits and whose bytes fit an address, is encoded, and a fresh cursor over the bytes yields its
-- documents, frequencies and positions in order, then ends without an error behind the last byte.
pub encode_postings-Yields :
    (postings : List Posting)
    → IsPostingList postings
    → (bytes : Bytes) × (encode_postings postings [] ≡ ok (bytes, total postings))
      × Yields (new bytes) postings
encode_postings-Yields postings v = (
  list_bytes postings,
  encode_postings-eq postings [] v,
  Stands-Yields (new (list_bytes postings)) postings (new-Stands postings v),
)
